-- ===== src/Google/Compound.antt =====
-- internal/google/google.go: the ids of Google's devices, as `handleSync` makes and `parseCompoundID`
-- reads them.
use minnal_labs.Base.{ℕ, ◌<◌, ◌≡◌, ap, String, some}
use minnal_labs.Base.Text.Decimal.{u64_mod, cut-decimal, parse_uint-decimal}
use minnal_labs.Google.{with_key, compound_id, parse_compound_id}

-- The id that SYNC makes of a device and a capability is read back as both, whatever the
-- capability's key has in it, colons too. The device's id has 64 bits.
pub parse_compound_id-compound_id :
    (id : ℕ) (key : String) → id < u64_mod → parse_compound_id (compound_id id key) ≡ some (id, key)
unfolding parse_compound_id compound_id
parse_compound_id-compound_id id key p =
    rw (cut-decimal id key) (ap (with_key key) (parse_uint-decimal id p))
