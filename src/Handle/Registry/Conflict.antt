-- ===== src/Handle/Registry/Conflict.antt =====
-- Handles from the network: two claims to one name are settled alike everywhere.
use ephemera_social.Base.{
  ℕ, same_cases, same_self, ◌≡◌, inl, inr, refl, sym, ap, ◌∙◌, List, [], ◌∷◌, Option, none, some,
  true, false, lt, if◌then◌else◌, list_ord, nat_ord, pair_ord, Bytes, arith, Option-cases, All,
  pair_eq, pair_flip, pair_trans, cmp_pair,
}
use mathlib.Core.List.{Perm, foldr}
use mathlib.Core.List.Perm
use ephemera_social.Map.{get}
use ephemera_social.Map.Laws.{get-insert, get-remove}
use ephemera_social.Handle.Format.{Name}
use ephemera_social.Handle.Registry.Links.{IsLinked, holder_of}
use ephemera_social.Handle.Registry.{
  Handle, HandleRegistry, is_expired_at, unlink, take_over, settle, insert_validated, claims_before,
  existing_wins, accept, incoming_wins, resolve_conflict, lookup_by_owner,
}

take_over-IsLinked : (h : Handle) (s : HandleRegistry) → IsLinked s → IsLinked (take_over h s)
take_over-IsLinked h s v o =
    let links = unlink (get h.name s.handles) s.owner_to_handle in
    let at_owner = get-insert o h.owner h.name links in
    elim (Option-cases (get o s.owner_to_handle)) [
      | inl c ↦ elim (Option-cases (get h.name s.handles)) [
        | inl d ↦ ground (
          arith,
          c,
          d,
          at_owner,
          same_cases o h.owner,
          same_self h.name,
          same_self o,
          get-insert h.name h.name h s.handles,
        )
        | inr (k, d) ↦ ground (
          arith,
          c,
          d,
          at_owner,
          get-remove o k.owner s.owner_to_handle,
          same_cases o h.owner,
          same_self h.name,
          same_self o,
          get-insert h.name h.name h s.handles,
        )
      ]
      | inr (n, c) ↦
          let (j, a, b, e) = holder_of o n s (v o) c in
          elim (Option-cases (get h.name s.handles)) [
            | inl d ↦ ground (
              arith,
              a,
              b,
              e,
              c,
              d,
              at_owner,
              same_cases o h.owner,
              same_self h.name,
              same_self o,
              same_self n,
              same_cases n h.name,
              get-insert h.name h.name h s.handles,
              get-insert n h.name h s.handles,
            )
            | inr (k, d) ↦ ground (
              arith,
              a,
              b,
              e,
              c,
              d,
              at_owner,
              get-remove o k.owner s.owner_to_handle,
              same_cases o h.owner,
              same_cases o k.owner,
              same_self h.name,
              same_self o,
              same_self n,
              same_cases n h.name,
              get-insert h.name h.name h s.handles,
              get-insert n h.name h s.handles,
            )
          ]
    ]

-- A record from the network keeps every link leading to a handle of its owner.
pub insert_validated-IsLinked :
    (now : ℕ) (h : Handle) (s : HandleRegistry) → IsLinked s → IsLinked (insert_validated now h s).0
unfolding insert_validated
insert_validated-IsLinked now h s v =
    elim (resolve_conflict now h s) as (λ r. IsLinked (settle r h s).0) [
      | existing_wins ↦ v
      | accept ↦ take_over-IsLinked h s v
      | incoming_wins ↦ take_over-IsLinked h s v
    ]

-- A record from the network for a free name is taken over also if its owner holds another handle:
-- the registry then has both, and the owner's link leads to the new one.
pub insert_validated-two :
    (now : ℕ) (h k : Handle) (s : HandleRegistry)
    → get h.name s.handles ≡ some h
    → get k.name s.handles ≡ none
    → k.owner ≡ h.owner
    → (get h.name (insert_validated now k s).0.handles ≡ some h)
      × (get k.name (insert_validated now k s).0.handles ≡ some k)
      × (lookup_by_owner h.owner (insert_validated now k s).0 ≡ some k)
unfolding insert_validated lookup_by_owner
insert_validated-two now h k s e f o = ground (
  arith,
  e,
  f,
  o,
  get-insert h.name k.name k s.handles,
  get-insert k.name k.name k s.handles,
  same_cases h.name k.name,
  same_self k.name,
  same_self h.owner,
  get-insert h.owner k.owner k.name s.owner_to_handle,
)

-- What a claim to a name is ranked by: the instant, then the owner's key.
abbrev pub Claim : Type 0
Claim = ℕ × Bytes

abbrev pub claim : Handle → Claim
claim h = (h.registered_at, h.owner)

-- The claim of a handle that has not expired.
abbrev pub live_claim : ℕ → Option Handle → Option Claim
live_claim now none = none
live_claim now (some h) = if is_expired_at now h then none else some (claim h)

earlier : Claim → Option Claim → Option Claim
earlier c none = some c
earlier c (some d) = elim (cmp_pair c d) [ lt ↦ some c | _ ↦ some d ]

earlier_comm : (c d : Claim) (o : Option Claim) → earlier c (earlier d o) ≡ earlier d (earlier c o)
unfolding earlier
earlier_comm c d none =
    ground (arith, pair_flip {A = ℕ} {B = Bytes} c d, pair_eq {A = ℕ} {B = Bytes} c d)
earlier_comm c d (some e) = ground (
  arith,
  pair_flip {A = ℕ} {B = Bytes} c d,
  pair_eq {A = ℕ} {B = Bytes} c d,
  pair_eq {A = ℕ} {B = Bytes} c e,
  pair_eq {A = ℕ} {B = Bytes} d e,
  pair_trans {A = ℕ} {B = Bytes} c d e,
  pair_trans {A = ℕ} {B = Bytes} d c e,
  pair_flip {A = ℕ} {B = Bytes} c e,
  pair_flip {A = ℕ} {B = Bytes} d e,
  pair_trans {A = ℕ} {B = Bytes} c e d,
  pair_trans {A = ℕ} {B = Bytes} d e c,
)

before-claim :
    (h k : Handle)
    → claims_before h k ≡ (elim (cmp_pair (claim h) (claim k)) [ lt ↦ true | _ ↦ false ])
before-claim h k = ground arith

insert-claim :
    (now : ℕ) (h : Handle) (s : HandleRegistry)
    → is_expired_at now h ≡ false
    → live_claim now (get h.name (insert_validated now h s).0.handles)
      ≡ earlier (claim h) (live_claim now (get h.name s.handles))
unfolding insert_validated earlier
insert-claim now h s x = elim (Option-cases (get h.name s.handles)) [
  | inl e ↦ ground (arith, x, e, get-insert h.name h.name h s.handles, same_self h.name)
  | inr (k, e) ↦
      ground (arith, x, e, get-insert h.name h.name h s.handles, same_self h.name, before-claim h k)
]

-- The records of the network, as they come in.
unfoldable pub insert_all : ℕ → List Handle → HandleRegistry → HandleRegistry
unfolding insert_validated
insert_all now [] s = s
insert_all now (h ∷ hs) s = insert_all now hs (insert_validated now h s).0

abbrev pub IsRival : ℕ → Name → Handle → Type 0
IsRival now name h = (h.name ≡ name) × (is_expired_at now h ≡ false)

earliest : Option Claim → List Handle → Option Claim
earliest o hs = foldr (λ h c. earlier (claim h) c) o hs

earliest-earlier :
    (c : Claim) (o : Option Claim) (hs : List Handle)
    → earliest (earlier c o) hs ≡ earlier c (earliest o hs)
unfolding earliest
earliest-earlier c o [] = refl
earliest-earlier c o (h ∷ hs) =
    ap (earlier (claim h)) (earliest-earlier c o hs) ∙ earlier_comm (claim h) c (earliest o hs)

insert_all-earliest :
    (now : ℕ) (name : Name) (hs : List Handle) (s : HandleRegistry)
    → All (IsRival now name) hs
    → live_claim now (get name (insert_all now hs s).handles)
      ≡ earliest (live_claim now (get name s.handles)) hs
unfolding insert_all earliest
insert_all-earliest now name [] s a = refl
insert_all-earliest now name (h ∷ hs) s ((n, x), a) =
    let first = insert-claim now h s x in
    insert_all-earliest now name hs (insert_validated now h s).0 a
    ∙ ap (λ o. earliest o hs)
        (ap (λ m. live_claim now (get m (insert_validated now h s).0.handles)) (sym n)
          ∙ first
          ∙ ap (λ m. earlier (claim h) (live_claim now (get m s.handles))) n)
    ∙ earliest-earlier (claim h) (live_claim now (get name s.handles)) hs

claims_set : IsSet (Option Claim)
claims_set = hlevel

-- However the records of a name come in, as long as none has expired the same claim holds the name
-- at the end: the same instant of registration and the same owner.
pub insert_all-perm :
    (now : ℕ) (name : Name) (hs ks : List Handle) (s : HandleRegistry)
    → All (IsRival now name) hs
    → All (IsRival now name) ks
    → Perm hs ks
    → live_claim now (get name (insert_all now hs s).handles)
      ≡ live_claim now (get name (insert_all now ks s).handles)
unfolding earliest
insert_all-perm now name hs ks s a b p =
    insert_all-earliest now name hs s a
    ∙ Perm.foldr-eq claims_set (λ h c. earlier (claim h) c)
        (λ h k c. earlier_comm (claim h) (claim k) c) p (live_claim now (get name s.handles))
    ∙ sym (insert_all-earliest now name ks s b)
