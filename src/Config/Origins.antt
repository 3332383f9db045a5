-- ===== src/Config/Origins.antt =====
-- internal/config/config.go: the origins that a browser may send requests from.
use minnal_labs.Base.{◌≡◌, ◌≢◌, refl, String, false, List, [], ◌∷◌, inl, inr, str_eq, Bool-cases}
use minnal_labs.Base.Rows.{All}
use minnal_labs.Base.Text.{trim_space, trim_left, trim_right}
use minnal_labs.Base.Text.Parts.{split_on}
use minnal_labs.Validation.Trim.{trim_space_again}
use minnal_labs.Config.{AppConfig, non_blank, or_localhost, frontend_allowed_origins}

-- an origin with no space around it
abbrev pub IsOrigin : String → Type 0
IsOrigin o = (str_eq o "" ≡ false) × (trim_space o ≡ o)

localhost : trim_space "http://localhost" ≡ "http://localhost"
unfolding trim_space trim_left trim_right
localhost = refl

non_blank-All : (parts : List String) → All IsOrigin (non_blank parts)
unfolding non_blank
non_blank-All [] = tt
non_blank-All (part ∷ parts) = elim (Bool-cases (str_eq (trim_space part) "")) [
  | inl e ↦ rw e (non_blank-All parts)
  | inr e ↦ rw e ((e, trim_space_again part), non_blank-All parts)
]

or_localhost-All :
    (origins : List String)
    → All IsOrigin origins
    → (or_localhost origins ≢ []) × All IsOrigin (or_localhost origins)
or_localhost-All [] h = (λ e. cc, ((refl, localhost), tt))
or_localhost-All (o ∷ os) h = (λ e. cc, h)

-- The list of allowed origins is not empty, and each of them is a text that is not blank and has no
-- space around it, whatever the setting is.
pub frontend_allowed_origins-All :
    (c : AppConfig) → (frontend_allowed_origins c ≢ []) × All IsOrigin (frontend_allowed_origins c)
unfolding frontend_allowed_origins
frontend_allowed_origins-All c =
    elim (Bool-cases (str_eq (trim_space c.frontend_allowed_origins) "")) [
      | inl e ↦ rw e (λ x. cc, ((refl, localhost), tt))
      | inr e ↦ rw e (
          or_localhost-All (non_blank (split_on b',' (trim_space c.frontend_allowed_origins)))
            (non_blank-All (split_on b',' (trim_space c.frontend_allowed_origins))))
    ]
