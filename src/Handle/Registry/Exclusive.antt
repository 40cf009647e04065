-- ===== src/Handle/Registry/Exclusive.antt =====
-- Every operation on a handle of one's own keeps the registry consistent.
use ephemera_social.Base.{
  ℕ, same_cases, same_self, ◌≡◌, ◌*◌, wrapping_add, inl, inr, refl, ap, ◌∙◌, List, [], ◌∷◌, Option,
  none, some, not, ◌&&◌, leb, same, list_ord, nat_ord, Bytes, arith, Option-cases, Bool-cases,
}
use ephemera_social.Map.{get, insert, remove}
use ephemera_social.Map.Laws.{get-insert, get-remove}
use ephemera_social.Pow.Argon.{found, running, panicked, Mined}
use ephemera_social.Signing.{Signing}
use ephemera_social.Handle.Format.{Name, PowDifficulty}
use ephemera_social.Handle.Registry.Links.{
  IsConsistent, link_of, holder_of, handle_ok, drop-IsConsistent,
}
use ephemera_social.Handle.Registry.{
  Handle, HandleRegistry, gc, drop_names, is_expired_at, auto_renew, unlink, lookup_by_owner,
  set_expiry, extend, expired_names,
}
use ephemera_social.Handle.Registry.Keyed.{
  register_with_difficulty, renew, release, renewed, renew_held, release_held, register,
}
use ephemera_social.Handle.Registry.Checks.{register-IsConsistent}

-- A handle is replaced by one of the same name and owner.
replace-IsConsistent :
    (n : Name) (h k : Handle) (s : HandleRegistry)
    → get n s.handles ≡ some h
    → (k.name ≡ h.name) × (k.owner ≡ h.owner)
    → IsConsistent s
    → IsConsistent (record s { handles = insert n k s.handles })
replace-IsConsistent n h k s e f v = (
  λ o. elim (Option-cases (get o s.owner_to_handle)) [
    | inl c ↦ ground (arith, c)
    | inr (m, c) ↦
        let (j, a, b, d) = holder_of o m s (v.0 o) c in
        ground (
          arith,
          a,
          b,
          d,
          e,
          f.0,
          f.1,
          c,
          same_cases m n,
          get-insert m n k s.handles,
          same_self o,
          same_self m,
        )
  ],
  λ m. elim (Option-cases (get m s.handles)) [
    | inl c ↦ ground (arith, c, e, get-insert m n k s.handles, same_cases m n)
    | inr (j, c) ↦
        let l = link_of m j s (v.1 m) c in
        ground
          (arith, l.0, l.1, e, f.0, f.1, c, same_cases m n, get-insert m n k s.handles, same_self m)
  ],
)

module _ (ed25519 : Signing) (pow_hash : Bytes → Bytes → Bytes) where
  renew-IsConsistent :
      (rounds now : ℕ) (name : Name) (secret : Bytes) (s : HandleRegistry)
      → IsConsistent s
      → IsConsistent (renew ed25519 pow_hash rounds now name secret s).0
  unfolding renew
  renew-IsConsistent rounds now name secret s v = go (get name s.handles) refl
    where
      replaced :
          (h : Handle) (m : Mined)
          → get name s.handles ≡ some h
          → IsConsistent (renewed ed25519 pow_hash now name secret m h s).0
      replaced h (found stamp) e = replace-IsConsistent name h _ s e (refl, refl) v
      replaced h running e = v
      replaced h panicked e = v

      go :
          (l : Option Handle)
          → get name s.handles ≡ l
          → IsConsistent (renew_held ed25519 pow_hash rounds now name secret l s).0
      go none e = v
      go (some h) e = elim (Bool-cases (same h.owner (ed25519.public_key secret))) [
        | inl x ↦ elim (Bool-cases (is_expired_at now h)) [
          | inl y ↦ rw (x, y) v
          | inr y ↦ rw (x, y) (replaced h _ e)
        ]
        | inr x ↦ rw x v
      ]

  release-IsConsistent :
      (now : ℕ) (name : Name) (secret : Bytes) (s : HandleRegistry)
      → IsConsistent s
      → IsConsistent (release ed25519 pow_hash now name secret s).0
  unfolding release
  release-IsConsistent now name secret s v = go (get name s.handles) refl
    where
      go :
          (l : Option Handle)
          → get name s.handles ≡ l
          → IsConsistent (release_held ed25519 pow_hash now name secret l s).0
      go none e = v
      go (some h) e = elim (same_cases h.owner (ed25519.public_key secret)) [
        | inl x ↦ rw x.0 (
            drop-IsConsistent h name (ed25519.public_key secret) s e
              (link_of name h s (v.1 name) e).0 x.1 v)
        | inr x ↦ rw x.0 v
      ]

absent-IsConsistent :
    (n : Name) (s : HandleRegistry)
    → get n s.handles ≡ none
    → IsConsistent s
    → IsConsistent (record s { handles = remove n s.handles })
absent-IsConsistent n s e v =
    let same_get : (m : Name) → get m (remove n s.handles) ≡ get m s.handles =
      λ m. ground (arith, e, get-remove m n s.handles, same_cases m n) in
    (
      λ o. elim (Option-cases (get o s.owner_to_handle)) [
        | inl c ↦ ground (arith, c)
        | inr (m, c) ↦ ground (arith, c, v.0 o, same_get m)
      ],
      λ m. ap (handle_ok m s.owner_to_handle) (same_get m) ∙ v.1 m,
    )

drop_name-IsConsistent :
    (n : Name) (s : HandleRegistry)
    → IsConsistent s
    → IsConsistent (record s {
      handles = remove n s.handles;
      owner_to_handle = unlink (get n s.handles) s.owner_to_handle;
    })
drop_name-IsConsistent n s v = elim (Option-cases (get n s.handles)) [
  | inl e ↦ rw e (absent-IsConsistent n s e v)
  | inr (h, e) ↦ rw e (drop-IsConsistent h n h.owner s e (link_of n h s (v.1 n) e).0 refl v)
]

drop_names-IsConsistent :
    (names : List Name) (s : HandleRegistry) → IsConsistent s → IsConsistent (drop_names names s)
unfolding drop_names
drop_names-IsConsistent [] s v = v
drop_names-IsConsistent (n ∷ names) s v =
    drop_names-IsConsistent names _ (drop_name-IsConsistent n s v)

auto_renew-IsConsistent :
    (now : ℕ) (our_key : Bytes) (s : HandleRegistry)
    → IsConsistent s
    → IsConsistent (auto_renew now our_key s)
unfolding auto_renew
auto_renew-IsConsistent now our_key s v = go (lookup_by_owner our_key s)
  where
    set : (until : ℕ) (n : Name) → IsConsistent (set_expiry until n (get n s.handles) s)
    set until n = elim (Option-cases (get n s.handles)) [
      | inl e ↦ rw e v
      | inr (h, e) ↦ rw e (replace-IsConsistent n h _ s e (refl, refl) v)
    ]

    go : (l : Option Handle) → IsConsistent (extend now l s)
    go none = v
    go (some h) =
        elim (Bool-cases
          (not (is_expired_at now h) && leb h.expires_at (wrapping_add now (7 * 24 * 3600)))) [
            | inl x ↦ rw x (set _ h.name)
            | inr x ↦ rw x v
          ]

-- Whether registering, renewing or releasing ends well or in an error, and after a sweep and the
-- renewal by the node, every link still leads to a handle of the owner, and every handle's owner
-- still has the link to it.
pub registry_ops-IsConsistent :
    (ed25519 : Signing) (pow_hash : Bytes → Bytes → Bytes) (rounds now : ℕ) (name : Name)
    (key : Bytes) (difficulty : PowDifficulty) (s : HandleRegistry)
    → IsConsistent s
    → IsConsistent (register_with_difficulty ed25519 pow_hash rounds now name key difficulty s).0
      × IsConsistent (register ed25519 pow_hash rounds now name key s).0
      × IsConsistent (renew ed25519 pow_hash rounds now name key s).0
      × IsConsistent (release ed25519 pow_hash now name key s).0
      × IsConsistent (gc now s)
      × IsConsistent (auto_renew now key s)
unfolding register gc
registry_ops-IsConsistent ed25519 pow_hash rounds now name key difficulty s v = (
  register-IsConsistent ed25519 pow_hash rounds now name key difficulty s v,
  register-IsConsistent ed25519 pow_hash rounds now _ key _ s v,
  renew-IsConsistent ed25519 pow_hash rounds now name key s v,
  release-IsConsistent ed25519 pow_hash now name key s v,
  drop_names-IsConsistent (expired_names now s.handles) s v,
  auto_renew-IsConsistent now key s v,
)

-- In a consistent registry two handles of one owner are one.
pub one_handle :
    (n m : Name) (h k : Handle) (s : HandleRegistry)
    → IsConsistent s
    → get n s.handles ≡ some h
    → get m s.handles ≡ some k
    → h.owner ≡ k.owner
    → (n ≡ m) × (h ≡ k)
one_handle n m h k s v e f o =
    let l = link_of n h s (v.1 n) e in
    let r = link_of m k s (v.1 m) f in
    let p : some n ≡ some m = ground (arith, l.1, r.1, o) in ground (arith, p, e, f)
