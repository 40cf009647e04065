-- ===== src/Tests/Epoch.antt =====
-- Epoch keys at small inputs, with a stand-in for HKDF.
use ephemera_social.Base.{
  ℕ, ◌*◌, ◌+◌, ◌≡◌, ◌<◌, refl, List, [], ◌∷◌, none, some, false, Bytes, ok, arith, nat_ord, any,
}
use ephemera_social.Map.{get}
use ephemera_social.Epoch
use ephemera_social.Epoch.{
  EpochKeyEntry, EpochKeyManager, epoch_id_for_timestamp, epoch_key_for, destroy_expired_keys_at,
  contains,
}
use ephemera_social.Epoch.Shredding.{
  Call, current, key_for, perform_all, sweep-shreds, sweep-misses,
}

derive : Bytes → ℕ → Bytes
derive master e = e ∷ master

abbrev entry : EpochKeyEntry
entry = record { key = 3 ∷ 9 ∷ []; epoch_id = 3; created_at = 300000; destroyed = false }

abbrev manager : EpochKeyManager
manager = record { master = 9 ∷ []; cached = (3, entry) ∷ []; destroyed_epochs = [] }

abbrev late : ℕ
late = 40 * 86400

entry_held : get 3 manager.cached ≡ some entry
unfolding get
entry_held = refl

late_enough : 3 + 30 < epoch_id_for_timestamp late
unfolding epoch_id_for_timestamp
late_enough = omega arith

abbrev calls : List Call
calls = current late ∷ key_for late 3 ∷ []

sweep-shreds_example :
    (get 3 (perform_all derive calls (destroy_expired_keys_at late manager).0).cached ≡ none)
    × (epoch_key_for derive late 3
          (perform_all derive calls (destroy_expired_keys_at late manager).0)
        ≡ (perform_all derive calls (destroy_expired_keys_at late manager).0, ok none))
sweep-shreds_example = sweep-shreds derive late late 3 entry calls manager entry_held late_enough

restarted_get : get 3 (Epoch.new (9 ∷ [])).cached ≡ none
unfolding get Epoch.new
restarted_get = refl

restarted_destroyed : contains 3 (Epoch.new (9 ∷ [])).destroyed_epochs ≡ false
unfolding any Epoch.new
restarted_destroyed = refl

sweep-misses_example :
    (epoch_key_for derive late 3 (destroy_expired_keys_at late (Epoch.new (9 ∷ []))).0).1
    ≡ ok (some (derive (Epoch.new (9 ∷ [])).master 3))
sweep-misses_example =
    sweep-misses derive late late 3 (Epoch.new (9 ∷ [])) restarted_get restarted_destroyed
