-- ===== src/Base/Map.antt =====
-- Maps as functions: the keys of Valkey that share a prefix, or the fields of one hash.
use Prim.Native.Nat.{ℕ}
use Prim.Native.String.{String}
use mathlib.Core.Bool.{Bool, false, ◌||◌}
use mathlib.Core.List.{List, [], ◌∷◌}
use minnal_labs.Base.Tests.{◌==◌, str_eq, if◌then◌else◌}

-- SET, HSET and DEL at a key that is a number
abbrev pub write {ℓ} : {V : Type ℓ} → ℕ → V → (ℕ → V) → ℕ → V
write k v m j = if j == k then v else m j

-- SET, HSET and DEL at a key that is a text
abbrev pub write_str {ℓ} : {V : Type ℓ} → String → V → (String → V) → String → V
write_str k v m j = if str_eq j k then v else m j

-- SISMEMBER
unfoldable pub is_member : ℕ → List ℕ → Bool
is_member a [] = false
is_member a (x ∷ xs) = a == x || is_member a xs

-- SADD
unfoldable pub set_add : ℕ → List ℕ → List ℕ
unfolding is_member
set_add a xs = if is_member a xs then xs else a ∷ xs

-- SREM
unfoldable pub set_remove : ℕ → List ℕ → List ℕ
set_remove a [] = []
set_remove a (x ∷ xs) = let rest = set_remove a xs in if a == x then rest else x ∷ rest
