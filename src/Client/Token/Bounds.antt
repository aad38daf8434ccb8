-- ===== src/Client/Token/Bounds.antt =====
-- When a token that was received stops to be used.
use infisical_entity_operato.Base.{◌⊎◌, ℕ, ◌+◌, ◌*◌, ◌≤◌, ◌<◌, ◌≡◌, leb, pos, true, arith}
use infisical_entity_operato.Platform.{Platform}
use infisical_entity_operato.Client.Token.{refresh_skew, expiry, used_until, duration_of}

converted :
    (platform : Platform) (seconds : ℕ)
    → seconds ≤ 4611686018
    → duration_of platform (pos seconds) ≡ pos (seconds * 1000000000)
unfolding duration_of
converted platform seconds h =
    let small : leb seconds 4611686018 ≡ true = ground arith in ground (arith, small)

-- A token that is valid for some seconds, up to 2 ^ 62 nanoseconds, is used for a time, is not used at the
-- end of its validity, and is not used in the last 30 seconds of a validity of more than 30 seconds.
pub expiry-bounds :
    (platform : Platform) (now seconds : ℕ)
    → 0 < seconds
    → seconds ≤ 4611686018
    → (now < expiry platform now (pos seconds))
      × (expiry platform now (pos seconds) < now + seconds * 1000000000)
      × ((seconds ≤ 30)
          ⊎ (expiry platform now (pos seconds) + 30000000000 ≡ now + seconds * 1000000000))
unfolding expiry used_until refresh_skew
expiry-bounds platform now seconds h small = rw (converted platform seconds small) (ground arith)
