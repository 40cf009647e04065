-- ===== src/Handle/Registry/Keyed.antt =====
-- The operations of handle.rs that sign or verify: registering, renewing, releasing, and the check of
-- a record from the network. Ed25519 and the memory-hard hash are parameters, and `rounds` bounds the
-- search for a nonce.
use ephemera_social.Base.{
  ℕ, ◌-◌, Option, none, some, not, ltb, ◌==◌, if◌then◌else◌, same, list_ord, nat_ord, Bytes,
  to_ascii_lowercase, saturating_sub, wrapping_add, Result, ok, err,
}
use ephemera_social.Map.{get, insert, remove}
use ephemera_social.Pow.Argon
use ephemera_social.Pow.Argon.{PowStamp, Mined, found, running, panicked, generate_pow}
use ephemera_social.Signing.{Signing}
use ephemera_social.Handle.Format.{
  Name, PowDifficulty, renewal, bits, HandleValidationError, validate_handle_format,
  calculate_pow_difficulty, build_pow_challenge, build_signature_message, verify_handle_pow,
  verify_handle_signature, handle_ttl_secs, handle_release_cooldown_secs,
  handle_registration_cooldown_secs,
}
use ephemera_social.Handle.Registry.{
  Handle, HandleError, HandleRegistry, already_taken, expired, identity_already_has_handle,
  in_cooldown, invalid_format, invalid_pow, invalid_signature, is_expired_at, not_owner,
  registration_rate_limited,
}

-- The end of `register` and `renew`, or the search for a nonce has not ended yet.
pub data Registered : Type 0 where
  registered : Result Handle HandleError → Registered
  mining : Registered

-- A check: the registry as it leaves it, with the error that ends the operation, if any.
Checked : Type 0
Checked = HandleRegistry × Option HandleError

abbrev pub and_then :
    HandleRegistry × Option HandleError
    → (HandleRegistry → HandleRegistry × Registered)
    → HandleRegistry × Registered
and_then (s, none) next = next s
and_then (s, some e) next = (s, registered (err e))

-- 2. One handle per identity.
abbrev pub check_existing :
    ℕ → Bytes → Name → Option Handle → HandleRegistry → HandleRegistry × Option HandleError
check_existing now_secs owner existing none s = (s, none)
check_existing now_secs owner existing (some h) s =
    if not (is_expired_at now_secs h) then (s, some (identity_already_has_handle existing)) else (
      record s {
        handles = remove existing s.handles;
        owner_to_handle = remove owner s.owner_to_handle;
      },
      none,
    )

abbrev pub check_link :
    ℕ → Bytes → Option Name → HandleRegistry → HandleRegistry × Option HandleError
check_link now_secs owner none s = (s, none)
check_link now_secs owner (some existing) s =
    check_existing now_secs owner existing (get existing s.handles) s

unfoldable pub check_identity : ℕ → Bytes → HandleRegistry → HandleRegistry × Option HandleError
check_identity now_secs owner s = check_link now_secs owner (get owner s.owner_to_handle) s

-- 3. Rate limiting.
abbrev pub check_last : ℕ → Option ℕ → HandleRegistry → HandleRegistry × Option HandleError
check_last now_secs none s = (s, none)
check_last now_secs (some last) s =
    let elapsed = saturating_sub now_secs last in
    if ltb elapsed handle_registration_cooldown_secs
    then (s, some (registration_rate_limited (handle_registration_cooldown_secs - elapsed)))
    else (s, none)

unfoldable pub check_rate : ℕ → Bytes → HandleRegistry → HandleRegistry × Option HandleError
check_rate now_secs owner s = check_last now_secs (get owner s.last_registration) s

-- 4. Availability.
abbrev pub check_taken :
    ℕ → Name → Option Handle → HandleRegistry → HandleRegistry × Option HandleError
check_taken now_secs name none s = (s, none)
check_taken now_secs name (some existing) s =
    if not (is_expired_at now_secs existing) then (s, some (already_taken name)) else (
      record s {
        handles = remove name s.handles;
        owner_to_handle = remove existing.owner s.owner_to_handle;
      },
      none,
    )

unfoldable pub check_available : ℕ → Name → HandleRegistry → HandleRegistry × Option HandleError
check_available now_secs name s = check_taken now_secs name (get name s.handles) s

-- 5. Cooldown.
abbrev pub check_until : ℕ → Name → Option ℕ → HandleRegistry → HandleRegistry × Option HandleError
check_until now_secs name none s = (s, none)
check_until now_secs name (some cooldown_until) s =
    if ltb now_secs cooldown_until
    then (s, some (in_cooldown name cooldown_until))
    else (record s { cooldowns = remove name s.cooldowns }, none)

unfoldable pub check_cooldown : ℕ → Name → HandleRegistry → HandleRegistry × Option HandleError
check_cooldown now_secs name s = check_until now_secs name (get name s.cooldowns) s

-- 9. The record is stored.
unfoldable pub store : Handle → HandleRegistry → HandleRegistry
store handle s = record s {
  handles = insert handle.name handle s.handles;
  owner_to_handle = insert handle.owner handle.name s.owner_to_handle;
  last_registration = insert handle.owner handle.registered_at s.last_registration;
}

module _ (ed25519 : Signing) (pow_hash : Bytes → Bytes → Bytes) where
  -- 6. to 8. The record, once a stamp is found. Signing gives 64 bytes and cannot fail.
  abbrev pub build : ℕ → Name → Bytes → PowStamp → Handle
  build now_secs name secret stamp = record {
    name = name;
    owner = ed25519.public_key secret;
    registered_at = now_secs;
    expires_at = wrapping_add now_secs handle_ttl_secs;
    pow_proof = stamp;
    signature =
        ed25519.sign secret (build_signature_message name (ed25519.public_key secret) now_secs);
  }

  abbrev pub finish : ℕ → Name → Bytes → Mined → HandleRegistry → HandleRegistry × Registered
  finish now_secs name secret (found stamp) s = (
    store (build now_secs name secret stamp) s,
    registered (ok (build now_secs name secret stamp)),
  )
  finish now_secs name secret _ s = (s, mining)

  -- The search of steps 6 and of a renewal.
  abbrev pub search_stamp : ℕ → ℕ → Name → Bytes → PowDifficulty → Mined
  search_stamp rounds now_secs name secret difficulty =
      generate_pow pow_hash rounds (build_pow_challenge name (ed25519.public_key secret) now_secs)
        (bits difficulty)

  -- Steps 2 to 9.
  abbrev pub register_valid :
      (rounds now_secs : ℕ)
      → Name
      → (secret : Bytes) → PowDifficulty
      → HandleRegistry
      → HandleRegistry × Registered
  register_valid rounds now_secs name secret difficulty s =
      let owner = ed25519.public_key secret in
      and_then (check_identity now_secs owner s) (λ s. and_then (check_rate now_secs owner s) (λ s.
        and_then (check_available now_secs name s) (λ s.
          and_then (check_cooldown now_secs name s) (λ s.
            finish now_secs name secret (search_stamp rounds now_secs name secret difficulty) s))))

  -- Step 1.
  abbrev pub if_valid :
      Result {0, 0} Unit HandleValidationError
      → HandleRegistry
      → HandleRegistry × Registered
      → HandleRegistry × Registered
  if_valid (ok _) s next = next
  if_valid (err e) s next = (s, registered (err (invalid_format e)))

  unfoldable pub register_with_difficulty :
      (rounds now_secs : ℕ)
      → Name
      → (secret : Bytes) → PowDifficulty
      → HandleRegistry
      → HandleRegistry × Registered
  unfolding check_identity check_rate check_available check_cooldown store
  register_with_difficulty rounds now_secs name secret difficulty s =
      if_valid (validate_handle_format name) s
        (register_valid rounds now_secs name secret difficulty s)

  unfoldable pub register :
      (rounds now_secs : ℕ) → Name → (secret : Bytes) → HandleRegistry → HandleRegistry × Registered
  unfolding register_with_difficulty
  register rounds now_secs name secret s =
      let normalized = to_ascii_lowercase name in
      register_with_difficulty rounds now_secs normalized secret
        (calculate_pow_difficulty normalized) s

  unfoldable pub validate : (now_secs : ℕ) → Handle → Result {0, 0} Unit HandleError
  unfolding verify_handle_signature verify_handle_pow
  validate now_secs handle = elim (validate_handle_format handle.name) [
    | err e ↦ err (invalid_format e)
    | ok _ ↦
        if is_expired_at now_secs handle
        then err (expired handle.name)
        else if not (handle.expires_at == wrapping_add handle.registered_at handle_ttl_secs)
        then err invalid_pow
        else if not (
            verify_handle_signature ed25519 handle.name handle.owner handle.registered_at
              handle.signature)
        then err invalid_signature
        else elim (verify_handle_pow pow_hash handle.name handle.owner handle.registered_at
            handle.pow_proof (calculate_pow_difficulty handle.name)) [
              | Argon.Verified.ok ↦ ok tt
              | Argon.Verified.err _ ↦ err invalid_pow
            ]
  ]

  -- The record in place: all but its name and owner is new.
  abbrev pub renewed :
      ℕ → Name → Bytes → Mined → Handle → HandleRegistry → HandleRegistry × Registered
  renewed now_secs name secret (found stamp) handle s =
      let fresh = build now_secs name secret stamp in
      let updated = record fresh { name = handle.name; owner = handle.owner } in
      (record s { handles = insert name updated s.handles }, registered (ok updated))
  renewed now_secs name secret _ handle s = (s, mining)

  abbrev pub renew_held :
      (rounds now_secs : ℕ)
      → Name
      → Bytes
      → Option Handle
      → HandleRegistry
      → HandleRegistry × Registered
  renew_held rounds now_secs name secret none s = (s, registered (err (expired name)))
  renew_held rounds now_secs name secret (some handle) s =
      if not (same handle.owner (ed25519.public_key secret))
      then (s, registered (err (not_owner name)))
      else if is_expired_at now_secs handle
      then (s, registered (err (expired name)))
      else renewed now_secs name secret (search_stamp rounds now_secs name secret renewal) handle s

  -- `renew` returns no record; the new one is kept in the result here.
  unfoldable pub renew :
      (rounds now_secs : ℕ) → Name → (secret : Bytes) → HandleRegistry → HandleRegistry × Registered
  renew rounds now_secs name secret s =
      renew_held rounds now_secs name secret (get name s.handles) s

  abbrev pub release_held :
      ℕ → Name → Bytes → Option Handle → HandleRegistry → HandleRegistry × Option HandleError
  release_held now_secs name secret none s = (s, some (not_owner name))
  release_held now_secs name secret (some handle) s =
      if not (same handle.owner (ed25519.public_key secret)) then (s, some (not_owner name)) else (
        record s {
          handles = remove name s.handles;
          owner_to_handle = remove (ed25519.public_key secret) s.owner_to_handle;
          cooldowns = insert name (wrapping_add now_secs handle_release_cooldown_secs) s.cooldowns;
        },
        none,
      )

  -- `release`; an error is `some`.
  unfoldable pub release :
      (now_secs : ℕ)
      → Name
      → (secret : Bytes) → HandleRegistry
      → HandleRegistry × Option HandleError
  release now_secs name secret s = release_held now_secs name secret (get name s.handles) s
