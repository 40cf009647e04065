-- ===== src/Handle/Registry/Links.antt =====
-- The two maps of the registry stay consistent.
use ephemera_social.Base.{
  same_cases, same_self, ◌≡◌, inl, inr, sym, ap, ◌∙◌, Option, none, some, Bool, true, false, ◌&&◌,
  same, list_ord, nat_ord, Bytes, arith, Option-cases,
}
use ephemera_social.Map.{Map, get, remove}
use ephemera_social.Map.Laws.{get-insert, get-remove}
use ephemera_social.Handle.Format.{Name}
use ephemera_social.Handle.Registry.{Handle, HandleRegistry}
use ephemera_social.Handle.Registry.Keyed.{store}

-- The handle under a name is the owner's.
abbrev pub held_by : Bytes → Name → Option Handle → Bool
held_by o n none = false
held_by o n (some h) = same h.owner o && same h.name n

-- An owner's link leads to a handle of the owner.
abbrev pub link_ok : Bytes → Map Name Handle → Option Name → Bool
link_ok o hs none = true
link_ok o hs (some n) = held_by o n (get n hs)

abbrev pub links_to : Name → Option Name → Bool
links_to n none = false
links_to n (some m) = same m n

-- The owner of the handle under a name has a link to it.
abbrev pub handle_ok : Name → Map Bytes Name → Option Handle → Bool
handle_ok n links none = true
handle_ok n links (some h) = same h.name n && links_to n (get h.owner links)

abbrev pub IsLinked : HandleRegistry → Type 0
IsLinked s = (o : Bytes) → link_ok o s.handles (get o s.owner_to_handle) ≡ true

abbrev pub IsExclusive : HandleRegistry → Type 0
IsExclusive s = (n : Name) → handle_ok n s.owner_to_handle (get n s.handles) ≡ true

pub link_of :
    (n : Name) (h : Handle) (s : HandleRegistry)
    → handle_ok n s.owner_to_handle (get n s.handles) ≡ true
    → get n s.handles ≡ some h
    → (h.name ≡ n) × (get h.owner s.owner_to_handle ≡ some n)
link_of n h s v e = elim (Option-cases (get h.owner s.owner_to_handle)) [
  | inl c ↦ absurd (ground (arith, v, e, c))
  | inr (m, c) ↦ ground (arith, v, e, c, same_cases m n, same_cases h.name n)
]

pub holder_of :
    (o : Bytes) (n : Name) (s : HandleRegistry)
    → link_ok o s.handles (get o s.owner_to_handle) ≡ true
    → get o s.owner_to_handle ≡ some n
    → (h : Handle) × (get n s.handles ≡ some h) × (h.owner ≡ o) × (h.name ≡ n)
holder_of o n s v e = elim (Option-cases (get n s.handles)) [
  | inl c ↦ absurd (ground (arith, v, e, c))
  | inr (h, c) ↦ (
    h,
    c,
    ground (arith, v, e, c, same_cases h.owner o),
    ground (arith, v, e, c, same_cases h.name n),
  )
]

pub store-IsLinked :
    (h : Handle) (s : HandleRegistry)
    → get h.owner s.owner_to_handle ≡ none
    → get h.name s.handles ≡ none
    → IsLinked s
    → IsLinked (store h s)
unfolding store
store-IsLinked h s e f v o = elim (Option-cases (get o s.owner_to_handle)) [
  | inl c ↦ ground (
    arith,
    get-insert o h.owner h.name s.owner_to_handle,
    same_cases o h.owner,
    same_cases h.owner o,
    same_self h.name,
    get-insert h.name h.name h s.handles,
  )
  | inr (n, c) ↦ ground (
    arith,
    v o,
    get-insert o h.owner h.name s.owner_to_handle,
    same_cases o h.owner,
    same_cases h.owner o,
    get-insert n h.name h s.handles,
    same_cases n h.name,
  )
]

pub store-IsExclusive :
    (h : Handle) (s : HandleRegistry)
    → get h.owner s.owner_to_handle ≡ none
    → get h.name s.handles ≡ none
    → IsExclusive s
    → IsExclusive (store h s)
unfolding store
store-IsExclusive h s e f v n = elim (Option-cases (get n s.handles)) [
  | inl c ↦ ground (
    arith,
    get-insert n h.name h s.handles,
    same_cases n h.name,
    same_cases h.name n,
    same_self h.owner,
    get-insert h.owner h.owner h.name s.owner_to_handle,
  )
  | inr (k, c) ↦ ground (
    arith,
    v n,
    get-insert n h.name h s.handles,
    same_cases n h.name,
    same_cases h.name n,
    same_self h.owner,
    get-insert k.owner h.owner h.name s.owner_to_handle,
    same_cases k.owner h.owner,
  )
]

-- A handle goes, with the link of its owner.
abbrev dropped : Handle → HandleRegistry → HandleRegistry
dropped h s = record s {
  handles = remove h.name s.handles;
  owner_to_handle = remove h.owner s.owner_to_handle;
}

drop-IsLinked :
    (h : Handle) (s : HandleRegistry)
    → get h.name s.handles ≡ some h
    → IsLinked s
    → IsLinked (dropped h s)
drop-IsLinked h s e v o = elim (Option-cases (get o s.owner_to_handle)) [
  | inl c ↦ ground (arith, get-remove o h.owner s.owner_to_handle)
  | inr (n, c) ↦ ground (
    arith,
    v o,
    get-remove o h.owner s.owner_to_handle,
    same_cases o h.owner,
    same_cases h.owner o,
    get-remove n h.name s.handles,
    same_cases n h.name,
  )
]

drop-IsExclusive :
    (h : Handle) (s : HandleRegistry)
    → get h.name s.handles ≡ some h
    → IsExclusive s
    → IsExclusive (dropped h s)
drop-IsExclusive h s e v n = elim (Option-cases (get n s.handles)) [
  | inl c ↦ ground (arith, get-remove n h.name s.handles)
  | inr (k, c) ↦ ground (
    arith,
    v n,
    get-remove n h.name s.handles,
    same_cases n h.name,
    get-remove k.owner h.owner s.owner_to_handle,
    same_cases k.owner h.owner,
    link_of n k s (v n) c,
    link_of h.name h s (v h.name) e,
  )
]

abbrev pub IsConsistent : HandleRegistry → Type 0
IsConsistent s = IsLinked s × IsExclusive s

pub drop-IsConsistent :
    (h : Handle) (n : Name) (o : Bytes) (s : HandleRegistry)
    → get n s.handles ≡ some h
    → h.name ≡ n
    → h.owner ≡ o
    → IsConsistent s
    → IsConsistent
        (record s { handles = remove n s.handles; owner_to_handle = remove o s.owner_to_handle })
drop-IsConsistent h n o s e f g v =
    let kept : IsConsistent (dropped h s) =
      let e' : get h.name s.handles ≡ some h = ap (λ m. get m s.handles) f ∙ e in
      (drop-IsLinked h s e' v.0, drop-IsExclusive h s e' v.1) in
    rw (sym f, sym g) kept

pub gone : (k : Bytes) {V : Type 0} (m : Map Bytes V) → get k (remove k m) ≡ none
gone k m = ground (arith, get-remove k k m, same_self k)
