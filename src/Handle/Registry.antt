-- ===== src/Handle/Registry.antt =====
-- crates/ephemera-social/src/handle.rs, and the renewal that crates/ephemera-node/src/background.rs
-- does: who holds which handle. A pseudonym is its secret key; What signs
-- and verifies is in Keyed.
pub mod Keyed
pub mod Links
pub mod Checks
pub mod Exclusive
pub mod Accepted
pub mod Conflict
use ephemera_social.Base.{
  ℕ, zero, suc, ◌+◌, ◌-◌, ◌*◌, List, [], ◌∷◌, ◌++◌, Option, none, some, Bool, true, false, not,
  ◌&&◌, ltb, leb, ◌==◌, lt, eq, gt, if◌then◌else◌, same, cmp_list, list_ord, nat_ord, Bytes, codes,
  to_ascii_lowercase, contains_text, saturating_sub, wrapping_add, Result, ok, err, keep, map,
}
use ephemera_social.Map
use ephemera_social.Map.{Map, get, insert, remove, values, retain, keys}
use ephemera_social.Pow.Argon
use ephemera_social.Pow.Argon.{PowStamp, Mined, found, running, panicked, generate_pow}
use ephemera_social.Signing.{Signing}
use ephemera_social.Handle.Format.{
  Name, PowDifficulty, renewal, bits, HandleValidationError, validate_handle_format,
  calculate_pow_difficulty, build_pow_challenge, build_signature_message, verify_handle_pow,
  verify_handle_signature, handle_ttl_secs, handle_release_cooldown_secs,
  handle_registration_cooldown_secs,
}

pub data ConflictResult : Type 0 where
  accept incoming_wins existing_wins : ConflictResult

pub data InsertOutcome : Type 0 where
  inserted rejected : InsertOutcome
  replaced : (displaced_owner : Bytes) → InsertOutcome

pub record Handle : Type 0 where
  pub name : Name
  pub owner : Bytes
  pub registered_at : ℕ
  pub expires_at : ℕ
  pub pow_proof : PowStamp
  pub signature : Bytes

abbrev pub is_expired_at : ℕ → Handle → Bool
is_expired_at now_secs h = leb h.expires_at now_secs

pub data HandleError : Type 0 where
  invalid_format : HandleValidationError → HandleError
  already_taken not_owner expired : Name → HandleError
  identity_already_has_handle : (existing : Name) → HandleError
  registration_rate_limited : (remaining_secs : ℕ) → HandleError
  in_cooldown : Name → (available_at : ℕ) → HandleError
  invalid_pow invalid_signature : HandleError

pub record HandleRegistry : Type 0 where
  pub handles : Map Name Handle
  pub owner_to_handle : Map Bytes Name
  pub last_registration : Map Bytes ℕ
  pub cooldowns : Map Name ℕ

unfoldable pub new : HandleRegistry
new = record {
  handles = Map.empty;
  owner_to_handle = Map.empty;
  last_registration = Map.empty;
  cooldowns = Map.empty;
}

abbrev pub claims_before : Handle → Handle → Bool
claims_before incoming existing =
    if ltb incoming.registered_at existing.registered_at
    then true
    else if incoming.registered_at == existing.registered_at
    then elim (cmp_list incoming.owner existing.owner) [ lt ↦ true | _ ↦ false ]
    else false

abbrev pub resolve_against : ℕ → Handle → Option Handle → ConflictResult
resolve_against now_secs incoming none = accept
resolve_against now_secs incoming (some existing) =
    if is_expired_at now_secs existing
    then accept
    else if claims_before incoming existing
    then incoming_wins
    else existing_wins

unfoldable pub resolve_conflict : ℕ → Handle → HandleRegistry → ConflictResult
resolve_conflict now_secs incoming s =
    resolve_against now_secs incoming (get incoming.name s.handles)

-- The mapping of the owner that held the name so far is removed.
abbrev pub unlink : Option Handle → Map Bytes Name → Map Bytes Name
unlink none links = links
unlink (some prev) links = remove prev.owner links

abbrev pub take_over : Handle → HandleRegistry → HandleRegistry
take_over handle s = record s {
  handles = insert handle.name handle s.handles;
  owner_to_handle =
      insert handle.owner handle.name (unlink (get handle.name s.handles) s.owner_to_handle);
}

abbrev pub outcome_of : Option Handle → InsertOutcome
outcome_of none = inserted
outcome_of (some displaced) = replaced displaced.owner

abbrev pub settle : ConflictResult → Handle → HandleRegistry → HandleRegistry × InsertOutcome
settle existing_wins handle s = (s, rejected)
settle accept handle s = (take_over handle s, inserted)
settle incoming_wins handle s = (take_over handle s, outcome_of (get handle.name s.handles))

unfoldable pub insert_validated : ℕ → Handle → HandleRegistry → HandleRegistry × InsertOutcome
unfolding resolve_conflict
insert_validated now_secs handle s = settle (resolve_conflict now_secs handle s) handle s

unfoldable pub lookup : Name → HandleRegistry → Option Handle
unfolding to_ascii_lowercase get
lookup name s = get (to_ascii_lowercase name) s.handles

abbrev pub held : Option Name → HandleRegistry → Option Handle
held none s = none
held (some name) s = get name s.handles

unfoldable pub lookup_by_owner : Bytes → HandleRegistry → Option Handle
unfolding get
lookup_by_owner owner s = held (get owner s.owner_to_handle) s

unfoldable pub format_display : Handle → Name
format_display handle = codes "@" ++ handle.name

-- `to_lowercase` folds by the Unicode tables, a parameter.
unfoldable pub search_prefix : (Name → Name) → Name → HandleRegistry → List Handle
unfolding keep contains_text
search_prefix to_lowercase query s =
    keep (λ h. contains_text (to_lowercase query) (to_lowercase h.name)) (values s.handles)

-- The names that `gc` collects, and its loop over them.
unfoldable pub expired_names : ℕ → Map Name Handle → List Name
expired_names now_secs handles = keys (retain (λ e. is_expired_at now_secs e.1) handles)

unfoldable pub drop_names : List Name → HandleRegistry → HandleRegistry
drop_names [] s = s
drop_names (name ∷ names) s = drop_names names (record s {
  handles = remove name s.handles;
  owner_to_handle = unlink (get name s.handles) s.owner_to_handle;
})

unfoldable pub gc : ℕ → HandleRegistry → HandleRegistry
unfolding expired_names drop_names
gc now_secs s =
    let dropped = drop_names (expired_names now_secs s.handles) s in
    record dropped { cooldowns = retain (λ e. ltb now_secs e.1) dropped.cooldowns }

-- The renewal in the loop of background.rs, for the key of the node's own pseudonym.
abbrev pub set_expiry : ℕ → Name → Option Handle → HandleRegistry → HandleRegistry
set_expiry until name none s = s
set_expiry until name (some h) s = record s {
  handles = insert name (record h { expires_at = until }) s.handles;
}

abbrev pub extend : ℕ → Option Handle → HandleRegistry → HandleRegistry
extend now none s = s
extend now (some h) s =
    if not (is_expired_at now h) && leb h.expires_at (wrapping_add now (7 * 24 * 3600))
    then set_expiry (wrapping_add now (90 * 24 * 3600)) h.name (get h.name s.handles) s
    else s

unfoldable pub auto_renew : ℕ → Bytes → HandleRegistry → HandleRegistry
unfolding lookup_by_owner
auto_renew now our_key s = extend now (lookup_by_owner our_key s) s
