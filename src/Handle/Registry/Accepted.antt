-- ===== src/Handle/Registry/Accepted.antt =====
-- What other nodes say to a record that this node registered or renewed.
use ephemera_social.Base.{
  ℕ, same_cases, same_self, ◌+◌, ◌<◌, ◌≡◌, ◌↔◌, inl, inr, refl, sym, ap, ◌∙◌, Option, none, some,
  true, ltb, leb, if◌then◌else◌, list_ord, nat_ord, Bytes, arith, Bool-cases, Result, ok, err,
  wrapping_add, u64_size, to_ascii_lowercase,
}
use mathlib.Core.Path.{subst}
use ephemera_social.Map.{get}
use ephemera_social.Map.Laws.{get-insert}
use ephemera_social.Pow.Argon
use ephemera_social.Pow.Argon.{found, running, panicked, Mined, PowStamp, generate_pow, verify_pow}
use ephemera_social.Pow.Mining.{generate_pow-fits}
use ephemera_social.Signing.{Signing}
use ephemera_social.Handle.Format.{
  Name, PowDifficulty, bits, renewal, validate_handle_format, calculate_pow_difficulty,
  verify_handle_pow, verify_handle_signature, handle_ttl_secs, HandleValidationError,
  build_signature_message,
}
use ephemera_social.Handle.Registry.{
  Handle, HandleRegistry, HandleError, is_expired_at, expired, invalid_pow, lookup,
}
use ephemera_social.Handle.Registry.Keyed.{
  Registered, registered, mining, check_identity, check_rate, check_available, check_cooldown,
  store, register_with_difficulty, register, renew, and_then, finish, build, if_valid,
  register_valid, search_stamp, renewed, renew_held, validate,
}

module _ (ed25519 : Signing) (pow_hash : Bytes → Bytes → Bytes) where
  -- How `validate` judges a record that was built with a stamp of some difficulty.
  judged : (later now : ℕ) → Name → (difficulty : ℕ) → Result {0, 0} Unit HandleError
  judged later now name difficulty =
      if leb (wrapping_add now handle_ttl_secs) later
      then err (expired name)
      else if ltb difficulty (bits (calculate_pow_difficulty name))
      then err invalid_pow
      else ok tt

  signature-holds :
      (now : ℕ) (name : Name) (secret : Bytes)
      → verify_handle_signature ed25519 name
          (ed25519.public_key secret)
          now
          (ed25519.sign secret (build_signature_message name (ed25519.public_key secret) now))
        ≡ true
  unfolding verify_handle_signature
  signature-holds now name secret = ed25519.verify_sign secret _

  stamp-judged :
      (rounds now : ℕ) (name : Name) (secret : Bytes) (d e : PowDifficulty) (stamp : PowStamp)
      → search_stamp ed25519 pow_hash rounds now name secret d ≡ found stamp
      → verify_handle_pow pow_hash name (ed25519.public_key secret) now stamp e
        ≡ (if ltb (bits d) (bits e) then Argon.err Argon.below_minimum else Argon.ok)
  unfolding verify_handle_pow
  stamp-judged rounds now name secret d e stamp m =
      generate_pow-fits pow_hash rounds _ (bits d) (bits e) stamp m

  build-judged :
      (rounds later now : ℕ) (name : Name) (secret : Bytes) (d : PowDifficulty) (stamp : PowStamp)
      → validate_handle_format name ≡ ok tt
      → search_stamp ed25519 pow_hash rounds now name secret d ≡ found stamp
      → validate ed25519 pow_hash later (build ed25519 pow_hash now name secret stamp)
        ≡ judged later now name (bits d)
  unfolding validate judged
  build-judged rounds later now name secret d stamp f m = ground (
    arith,
    f,
    signature-holds now name secret,
    stamp-judged rounds now name secret d (calculate_pow_difficulty name) stamp m,
  )

  few_bits :
      (later now : ℕ) (name : Name)
      → judged later now name 5 ≡ (
          if leb (wrapping_add now handle_ttl_secs) later
          then err (expired name)
          else err invalid_pow)
  unfolding judged calculate_pow_difficulty
  few_bits later now name = ground arith

  -- A successful registration has found a stamp, and stored the record built with it.
  Built : (rounds now : ℕ) → Name → Bytes → PowDifficulty → HandleRegistry → Registered → Type 0
  Built rounds now name secret d t mining = Unit
  Built rounds now name secret d t (registered (err e)) = Unit
  Built rounds now name secret d t (registered (ok h)) =
      (stamp : PowStamp) × (search_stamp ed25519 pow_hash rounds now name secret d ≡ found stamp)
      × (h ≡ build ed25519 pow_hash now name secret stamp)
      × (get name t.handles ≡ some h)

  and_then-Built :
      (rounds now : ℕ) (name : Name) (secret : Bytes) (d : PowDifficulty)
      (r : HandleRegistry × Option HandleError)
      (next : HandleRegistry → HandleRegistry × Registered)
      → ((s : HandleRegistry) → Built rounds now name secret d (next s).0 (next s).1)
      → Built rounds now name secret d (and_then r next).0 (and_then r next).1
  unfolding Built
  and_then-Built rounds now name secret d (s, none) next k = k s
  and_then-Built rounds now name secret d (s, some e) next k = tt

  finish-Built :
      (rounds now : ℕ) (name : Name) (secret : Bytes) (d : PowDifficulty) (s : HandleRegistry)
      (m : Mined)
      → search_stamp ed25519 pow_hash rounds now name secret d ≡ m
      → Built rounds now name secret d
          (finish ed25519 pow_hash now name secret m s).0
          (finish ed25519 pow_hash now name secret m s).1
  unfolding Built store
  finish-Built rounds now name secret d s (found stamp) e =
      let h = build ed25519 pow_hash now name secret stamp in
      (stamp, e, refl, ground (arith, get-insert name name h s.handles, same_self name))
  finish-Built rounds now name secret d s running e = tt
  finish-Built rounds now name secret d s panicked e = tt

  register_valid-Built :
      (rounds now : ℕ) (name : Name) (secret : Bytes) (d : PowDifficulty) (s : HandleRegistry)
      → Built rounds now name secret d
          (register_valid ed25519 pow_hash rounds now name secret d s).0
          (register_valid ed25519 pow_hash rounds now name secret d s).1
  register_valid-Built rounds now name secret d s =
      let go = and_then-Built rounds now name secret d in
      go (check_identity now (ed25519.public_key secret) s) _ (λ s.
        go (check_rate now (ed25519.public_key secret) s) _ (λ s.
          go (check_available now name s) _ (λ s.
            go (check_cooldown now name s) _
              (λ s. finish-Built rounds now name secret d s _ refl))))

  register-Built :
      (rounds now : ℕ) (name : Name) (secret : Bytes) (d : PowDifficulty) (s t : HandleRegistry)
      (h : Handle)
      → register_with_difficulty ed25519 pow_hash rounds now name secret d s
        ≡ (t, registered (ok h))
      → (validate_handle_format name ≡ ok tt) × Built rounds now name secret d t (registered (ok h))
  unfolding register_with_difficulty
  register-Built rounds now name secret d s t h e = go (validate_handle_format name) refl e
    where
      go :
          (v : Result {0, 0} Unit HandleValidationError)
          → validate_handle_format name ≡ v
          → if_valid ed25519 pow_hash v s
              (register_valid ed25519 pow_hash rounds now name secret d s)
            ≡ (t, registered (ok h))
          → (validate_handle_format name ≡ ok tt)
            × Built rounds now name secret d t (registered (ok h))
      go (ok tt) f e = (
        f,
        subst (λ r. Built rounds now name secret d r.0 r.1) e
            (register_valid-Built rounds now name secret d s),
      )
      go (err x) f e = absurd (ground arith)

  -- A handle that `register` returns is found under its name, and any node accepts it until its 90
  -- days are over, but no longer. (The sum of the instant and the lifetime must fit its 64 bits.)
  pub register-validate :
      (rounds now later : ℕ) (name : Name) (secret : Bytes) (s t : HandleRegistry) (h : Handle)
      → now + handle_ttl_secs < u64_size
      → register ed25519 pow_hash rounds now name secret s ≡ (t, registered (ok h))
      → (lookup name t ≡ some h)
        × ((validate ed25519 pow_hash later h ≡ ok tt) ↔ (later < now + handle_ttl_secs))
  unfolding register lookup Built judged
  register-validate rounds now later name secret s t h b e =
      let n = to_ascii_lowercase name in
      let d = calculate_pow_difficulty n in
      let (f, (stamp, m, p, q)) = register-Built rounds now n secret d s t h e in
      let j =
        ap (validate ed25519 pow_hash later) p
        ∙ build-judged rounds later now n secret d stamp f m in
      (q, ground (arith, j, b))

  renewed-judged :
      (rounds now later : ℕ) (name : Name) (secret : Bytes) (s t : HandleRegistry) (k h : Handle)
      (m : Mined)
      → search_stamp ed25519 pow_hash rounds now name secret renewal ≡ m
      → validate_handle_format name ≡ ok tt
      → k.name ≡ name
      → k.owner ≡ ed25519.public_key secret
      → renewed ed25519 pow_hash now name secret m k s ≡ (t, registered (ok h))
      → (validate ed25519 pow_hash later h ≡ judged later now name 5) × (h.registered_at ≡ now)
  renewed-judged rounds now later name secret s t k h (found stamp) m f n o e =
      let made = build ed25519 pow_hash now name secret stamp in
      let same_record : h ≡ made = ground (arith, e, n, o) in
      (
        ap (validate ed25519 pow_hash later) same_record
            ∙ build-judged rounds later now name secret renewal stamp f m,
        ap (λ r. r.registered_at) same_record,
      )
  renewed-judged rounds now later name secret s t k h running m f n o e = absurd (ground arith)
  renewed-judged rounds now later name secret s t k h panicked m f n o e = absurd (ground arith)

  -- A record that `renew` makes is refused by every node that validates it: once it has expired as
  -- expired, and before as having too little work, since a renewal has 5 bits and every name needs
  -- at least 7. (The name has a valid format, and the record under it has that name.)
  pub renew-refused :
      (rounds now later : ℕ) (name : Name) (secret : Bytes) (s t : HandleRegistry) (k h : Handle)
      → validate_handle_format name ≡ ok tt
      → get name s.handles ≡ some k
      → k.name ≡ name
      → renew ed25519 pow_hash rounds now name secret s ≡ (t, registered (ok h))
      → validate ed25519 pow_hash later h ≡ (
          if leb (wrapping_add now handle_ttl_secs) later
          then err (expired name)
          else err invalid_pow)
  unfolding renew
  renew-refused rounds now later name secret s t k h f g n e =
      let e' : renew_held ed25519 pow_hash rounds now name secret (some k) s
          ≡ (t, registered (ok h)) =
        ap (λ l. renew_held ed25519 pow_hash rounds now name secret l s) (sym g) ∙ e in
      let few : judged later now name 5 ≡ (
          if leb (wrapping_add now handle_ttl_secs) later
          then err (expired name)
          else err invalid_pow) =
        few_bits later now name in
      elim (same_cases k.owner (ed25519.public_key secret)) [
        | inr x ↦ absurd (ground (arith, x.0, e'))
        | inl x ↦ elim (Bool-cases (is_expired_at now k)) [
          | inl y ↦ absurd (ground (arith, x.0, y, e'))
          | inr y ↦
              let r : renewed ed25519 pow_hash now name secret
                    (search_stamp ed25519 pow_hash rounds now name secret renewal) k s
                  ≡ (t, registered (ok h)) =
                ground (arith, x.0, y, e') in
              (renewed-judged rounds now later name secret s t k h _ refl f n x.1 r).0 ∙ few
        ]
      ]
