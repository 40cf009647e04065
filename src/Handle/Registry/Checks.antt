-- ===== src/Handle/Registry/Checks.antt =====
-- Registering keeps the registry consistent, at whichever check it ends.
use ephemera_social.Base.{
  ℕ, ◌≡◌, ◌⊎◌, inl, inr, refl, Option, none, some, ltb, saturating_sub, list_ord, nat_ord, Bytes,
  arith, Bool-cases, ok, err,
}
use ephemera_social.Map.{get}
use ephemera_social.Map.Laws.{get-remove}
use ephemera_social.Pow.Argon.{found, running, panicked, Mined}
use ephemera_social.Signing.{Signing}
use ephemera_social.Handle.Format.{
  Name, PowDifficulty, handle_registration_cooldown_secs, validate_handle_format,
}
use ephemera_social.Handle.Registry.Links.{
  IsConsistent, link_of, holder_of, gone, store-IsLinked, store-IsExclusive, drop-IsConsistent,
}
use ephemera_social.Handle.Registry.{
  Handle, HandleRegistry, HandleError, identity_already_has_handle, is_expired_at,
}
use ephemera_social.Handle.Registry.Keyed.{
  check_link, check_last, check_taken, check_until, Registered, check_identity, check_rate,
  check_available, check_cooldown, register_with_difficulty, and_then, finish, build, if_valid,
  register_valid,
}

-- A check keeps the registry consistent, and ends the operation or establishes something.
abbrev Checks : (HandleRegistry → Type 0) → HandleRegistry × Option HandleError → Type 0
Checks F r = IsConsistent r.0 × (F r.0 ⊎ ((e : HandleError) × (r.1 ≡ some e)))

and_then-IsConsistent :
    (F : HandleRegistry → Type 0) (r : HandleRegistry × Option HandleError)
    (next : HandleRegistry → HandleRegistry × Registered)
    → Checks F r
    → ((s : HandleRegistry) → IsConsistent s → F s → IsConsistent (next s).0)
    → IsConsistent (and_then r next).0
and_then-IsConsistent F (s, none) next (v, inl f) k = k s v f
and_then-IsConsistent F (s, none) next (v, inr (e, h)) k = absurd (cc)
and_then-IsConsistent F (s, some e) next (v, f) k = v

abbrev OwnerFree : Bytes → HandleRegistry → Type 0
OwnerFree owner s = get owner s.owner_to_handle ≡ none

abbrev BothFree : Bytes → Name → HandleRegistry → Type 0
BothFree owner name s = OwnerFree owner s × (get name s.handles ≡ none)

check_identity-Checks :
    (now : ℕ) (owner : Bytes) (s : HandleRegistry)
    → IsConsistent s
    → Checks (OwnerFree owner) (check_identity now owner s)
unfolding check_identity
check_identity-Checks now owner s v = go (get owner s.owner_to_handle) refl
  where
    go :
        (l : Option Name)
        → get owner s.owner_to_handle ≡ l
        → Checks (OwnerFree owner) (check_link now owner l s)
    go none e = (v, inl e)
    go (some n) e =
        let (h, f, g, k) = holder_of owner n s (v.0 owner) e in
        elim (Bool-cases (is_expired_at now h)) [
          | inl x ↦
              rw (f, x) (drop-IsConsistent h n owner s f k g v, inl (gone owner s.owner_to_handle))
          | inr x ↦ rw (f, x) (v, inr (identity_already_has_handle n, refl))
        ]

check_rate-Checks :
    (now : ℕ) (owner : Bytes) (s : HandleRegistry)
    → IsConsistent s
    → OwnerFree owner s
    → Checks (OwnerFree owner) (check_rate now owner s)
unfolding check_rate
check_rate-Checks now owner s v f = go (get owner s.last_registration)
  where
    go : (l : Option ℕ) → Checks (OwnerFree owner) (check_last now l s)
    go none = (v, inl f)
    go (some last) =
        elim (Bool-cases (ltb (saturating_sub now last) handle_registration_cooldown_secs)) [
          | inl x ↦ rw x (v, inr (_, refl))
          | inr x ↦ rw x (v, inl f)
        ]

check_available-Checks :
    (now : ℕ) (owner : Bytes) (name : Name) (s : HandleRegistry)
    → IsConsistent s
    → OwnerFree owner s
    → Checks (BothFree owner name) (check_available now name s)
unfolding check_available
check_available-Checks now owner name s v f = go (get name s.handles) refl
  where
    go :
        (l : Option Handle)
        → get name s.handles ≡ l
        → Checks (BothFree owner name) (check_taken now name l s)
    go none e = (v, inl (f, e))
    go (some h) e =
        let k = link_of name h s (v.1 name) e in
        elim (Bool-cases (is_expired_at now h)) [
          | inl x ↦ rw x (
            drop-IsConsistent h name h.owner s e k.0 refl v,
            inl (
              ground (arith, f, get-remove owner h.owner s.owner_to_handle),
              gone name s.handles,
            ),
          )
          | inr x ↦ rw x (v, inr (_, refl))
        ]

check_cooldown-Checks :
    (now : ℕ) (owner : Bytes) (name : Name) (s : HandleRegistry)
    → IsConsistent s
    → BothFree owner name s
    → Checks (BothFree owner name) (check_cooldown now name s)
unfolding check_cooldown
check_cooldown-Checks now owner name s v f = go (get name s.cooldowns)
  where
    go : (l : Option ℕ) → Checks (BothFree owner name) (check_until now name l s)
    go none = (v, inl f)
    go (some until) = elim (Bool-cases (ltb now until)) [
      | inl x ↦ rw x (v, inr (_, refl))
      | inr x ↦ rw x (v, inl f)
    ]

module _ (ed25519 : Signing) (pow_hash : Bytes → Bytes → Bytes) where
  finish-IsConsistent :
      (now : ℕ) (name : Name) (secret : Bytes) (m : Mined) (s : HandleRegistry)
      → IsConsistent s
      → BothFree (ed25519.public_key secret) name s
      → IsConsistent (finish ed25519 pow_hash now name secret m s).0
  finish-IsConsistent now name secret (found stamp) s v f =
      let h = build ed25519 pow_hash now name secret stamp in
      (store-IsLinked h s f.0 f.1 v.0, store-IsExclusive h s f.0 f.1 v.1)
  finish-IsConsistent now name secret running s v f = v
  finish-IsConsistent now name secret panicked s v f = v

  register_valid-IsConsistent :
      (rounds now : ℕ) (name : Name) (secret : Bytes) (difficulty : PowDifficulty)
      (s : HandleRegistry)
      → IsConsistent s
      → IsConsistent (register_valid ed25519 pow_hash rounds now name secret difficulty s).0
  register_valid-IsConsistent rounds now name secret difficulty s v =
      let owner = ed25519.public_key secret in
      and_then-IsConsistent (OwnerFree owner) (check_identity now owner s) _
        (check_identity-Checks now owner s v)
        (λ s v f.
          and_then-IsConsistent (OwnerFree owner) (check_rate now owner s) _
            (check_rate-Checks now owner s v f)
            (λ s v f.
              and_then-IsConsistent (BothFree owner name) (check_available now name s) _
                (check_available-Checks now owner name s v f)
                (λ s v f.
                  and_then-IsConsistent (BothFree owner name) (check_cooldown now name s) _
                    (check_cooldown-Checks now owner name s v f)
                    (λ s v f. finish-IsConsistent now name secret _ s v f))))

  pub register-IsConsistent :
      (rounds now : ℕ) (name : Name) (secret : Bytes) (difficulty : PowDifficulty)
      (s : HandleRegistry)
      → IsConsistent s
      → IsConsistent
          (register_with_difficulty ed25519 pow_hash rounds now name secret difficulty s).0
  unfolding register_with_difficulty
  register-IsConsistent rounds now name secret difficulty s v =
      elim (validate_handle_format name)
        as (λ r.
          IsConsistent
            (if_valid ed25519 pow_hash r s
              (register_valid ed25519 pow_hash rounds now name secret difficulty s)).0) [
                | ok _ ↦ register_valid-IsConsistent rounds now name secret difficulty s v
                | err _ ↦ v
              ]
