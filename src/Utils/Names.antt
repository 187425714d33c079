-- ===== src/Utils/Names.antt =====
-- pkg/utils/utils.go: what the helpers on names promise.
use Prim.Native.String.{len}
use infrakube_multicluster.Prelude.{◌≤◌, ◌<◌, ◌⊎◌, String, ◌≡◌, arith}
use infrakube_multicluster.Utils.{auto_hash_labeler}

-- A label value made from any name has at most 63 bytes, where the digest has 32 digits, and it is
-- the name itself unless that has more than 63 bytes.
pub auto_hash_labeler_bounds :
    (md5_hex : String → String) (s : String)
    → ((t : String) → len (md5_hex t) ≡ 32)
    → (len (auto_hash_labeler md5_hex s) ≤ 63) × ((auto_hash_labeler md5_hex s ≡ s) ⊎ (63 < len s))
unfolding auto_hash_labeler
auto_hash_labeler_bounds md5_hex s h = ground (arith, h s)
