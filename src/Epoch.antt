-- ===== src/Epoch.antt =====
-- crates/ephemera-crypto/src/epoch.rs: the keys of the days, and their destruction. The derivation of
-- a key from the master secret is a parameter, and the clock's reading an argument.
pub mod Shredding
use ephemera_social.Base.{
  ℕ, ◌+◌, ◌-◌, ◌*◌, ◌/◌, List, [], ◌∷◌, ◌++◌, Option, none, some, Bool, true, false, not, ◌&&◌, ltb,
  ◌==◌, if◌then◌else◌, any, keep, length, nat_ord, Bytes, Result, ok, err, saturating_sub, is_some,
}
use ephemera_social.Map
use ephemera_social.Map.{Map, get, insert, remove, keys}

abbrev pub epoch_duration_secs : ℕ
epoch_duration_secs = 24 * 3600

abbrev pub max_epoch_key_age_secs : ℕ
max_epoch_key_age_secs = 30 * epoch_duration_secs

unfoldable pub epoch_id_for_timestamp : ℕ → ℕ
epoch_id_for_timestamp unix_secs = unix_secs / epoch_duration_secs

pub record EpochKeyEntry : Type 0 where
  pub key : Bytes
  pub epoch_id : ℕ
  pub created_at : ℕ
  pub destroyed : Bool

pub record RotationResult : Type 0 where
  pub new_epoch_id : ℕ
  pub marked_for_destruction : List ℕ

pub record EpochKeyManager : Type 0 where
  pub master : Bytes
  pub cached : Map ℕ EpochKeyEntry
  pub destroyed_epochs : List ℕ

pub data EpochError : Type 0 where
  epoch_destroyed : ℕ → EpochError

unfoldable pub new : Bytes → EpochKeyManager
new master = record { master = master; cached = Map.empty; destroyed_epochs = [] }

-- `contains`
abbrev pub contains : ℕ → List ℕ → Bool
contains e es = any (λ d. d == e) es

unfoldable pub is_destroyed : ℕ → EpochKeyManager → Bool
unfolding any
is_destroyed epoch_id s = contains epoch_id s.destroyed_epochs

-- The push that leaves out what is there.
abbrev pub push_new : ℕ → List ℕ → List ℕ
push_new e es = if contains e es then es else es ++ e ∷ []

module _ (derive_epoch_key : Bytes → ℕ → Bytes) where
  abbrev pub derive_new : ℕ → ℕ → EpochKeyManager → EpochKeyManager × Result Bytes EpochError
  derive_new now epoch_id s =
      let key = derive_epoch_key s.master epoch_id in
      (
        record s {
          cached =
              insert epoch_id
                (record { key = key; epoch_id = epoch_id; created_at = now; destroyed = false })
                s.cached;
        },
        ok key,
      )

  abbrev pub ensure_cached :
      ℕ → ℕ → Option EpochKeyEntry → EpochKeyManager → EpochKeyManager × Result Bytes EpochError
  ensure_cached now epoch_id (some entry) s =
      if entry.destroyed then (s, err (epoch_destroyed epoch_id)) else (s, ok entry.key)
  ensure_cached now epoch_id none s =
      if contains epoch_id s.destroyed_epochs
      then (s, err (epoch_destroyed epoch_id))
      else derive_new now epoch_id s

  unfoldable pub ensure_key :
      (now epoch_id : ℕ) → EpochKeyManager → EpochKeyManager × Result Bytes EpochError
  unfolding get insert any
  ensure_key now epoch_id s = ensure_cached now epoch_id (get epoch_id s.cached) s

  unfoldable pub current_epoch_key :
      (now : ℕ) → EpochKeyManager → EpochKeyManager × Result Bytes EpochError
  unfolding ensure_key
  current_epoch_key now s = ensure_key now (epoch_id_for_timestamp now) s

  abbrev pub retained :
      EpochKeyManager × Result Bytes EpochError → EpochKeyManager × Result (Option Bytes) EpochError
  retained (s, ok key) = (s, ok (some key))
  retained (s, err e) = (s, err e)

  unfoldable pub epoch_key_for :
      (now epoch_id : ℕ) → EpochKeyManager → EpochKeyManager × Result (Option Bytes) EpochError
  unfolding ensure_key any
  epoch_key_for now epoch_id s =
      if contains epoch_id s.destroyed_epochs
      then (s, ok none)
      else retained (ensure_key now epoch_id s)

  abbrev pub rotated :
      ℕ
      → EpochKeyManager × Result Bytes EpochError
      → EpochKeyManager × Result RotationResult EpochError
  rotated current (s, err e) = (s, err e)
  rotated current (s, ok _) =
      let cutoff_epoch = saturating_sub current (max_epoch_key_age_secs / epoch_duration_secs) in
      (
        s,
        ok (record {
          new_epoch_id = current;
          marked_for_destruction =
              keep (λ e. ltb e cutoff_epoch && not (contains e s.destroyed_epochs)) (keys s.cached);
        }),
      )

  unfoldable pub rotate :
      (now : ℕ) → EpochKeyManager → EpochKeyManager × Result RotationResult EpochError
  unfolding ensure_key keep any epoch_id_for_timestamp
  rotate now s =
      rotated (epoch_id_for_timestamp now) (ensure_key now (epoch_id_for_timestamp now) s)

-- The loop over the epochs to destroy.
unfoldable pub destroy_all : List ℕ → EpochKeyManager → EpochKeyManager
destroy_all [] s = s
destroy_all (e ∷ es) s =
    destroy_all es
      (record s { cached = remove e s.cached; destroyed_epochs = push_new e s.destroyed_epochs })

-- The manager and the epochs that were destroyed.
unfoldable pub destroy_expired_keys_at : (now_secs : ℕ) → EpochKeyManager → EpochKeyManager × List ℕ
unfolding destroy_all keep epoch_id_for_timestamp
destroy_expired_keys_at now_secs s =
    let current_epoch = epoch_id_for_timestamp now_secs in
    let cutoff_epoch = current_epoch - max_epoch_key_age_secs / epoch_duration_secs in
    let to_destroy = keep (λ e. ltb e cutoff_epoch) (keys s.cached) in
    if ltb (max_epoch_key_age_secs / epoch_duration_secs) current_epoch
    then (destroy_all to_destroy s, to_destroy)
    else (s, [])

unfoldable pub destroy_key : (epoch_id : ℕ) → EpochKeyManager → EpochKeyManager × Bool
unfolding remove get any
destroy_key epoch_id s = (
  record s {
    cached = remove epoch_id s.cached;
    destroyed_epochs = push_new epoch_id s.destroyed_epochs;
  },
  is_some (get epoch_id s.cached),
)

unfoldable pub active_key_count : EpochKeyManager → ℕ
active_key_count s = Map.size s.cached
