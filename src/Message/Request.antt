-- ===== src/Message/Request.antt =====
-- crates/ephemera-message/src/request.rs: a stranger's request to talk. A text is the list of its
-- characters.
use ephemera_social.Base.{
  ℕ, ◌≤◌, ◌≡◌, ap, ◌∙◌, ◌≢◌, refl, List, [], ◌∷◌, Option, none, some, Bool, true, false, length,
  ltb, if◌then◌else◌, Bytes, arith,
}

abbrev pub max_intro_length : ℕ
max_intro_length = 280

pub data MessageRequestStatus : Type 0 where
  pending accepted rejected : MessageRequestStatus

pub record MessageRequest : Type 0 where
  pub sender : Bytes
  pub recipient : Bytes
  pub intro_message : Option (List ℕ)
  pub created_at : ℕ
  pub status : MessageRequestStatus

-- The errors of `MessageError` that a request returns, the second with the state that it found.
pub data RequestError : Type 0 where
  body_too_large : (got max : ℕ) → RequestError
  invalid_request_state : MessageRequestStatus → RequestError

pub data CreateResult : Type 0 where
  created : MessageRequest → CreateResult
  refused : RequestError → CreateResult

abbrev pub pending_request : ℕ → Bytes → Bytes → Option (List ℕ) → MessageRequest
pending_request now sender recipient intro = record {
  sender = sender;
  recipient = recipient;
  intro_message = intro;
  created_at = now;
  status = pending;
}

unfoldable pub new : ℕ → Bytes → Bytes → Option (List ℕ) → CreateResult
new now sender recipient none = created (pending_request now sender recipient none)
new now sender recipient (some msg) =
    if ltb max_intro_length (length msg)
    then refused (body_too_large (length msg) max_intro_length)
    else created (pending_request now sender recipient (some msg))

pub data ActionResult : Type 0 where
  ok : ActionResult
  err : RequestError → ActionResult

unfoldable pub accept : MessageRequest → MessageRequest × ActionResult
accept r = elim r.status [
  | pending ↦ (record r { status = accepted }, ok)
  | accepted ↦ (r, err (invalid_request_state accepted))
  | rejected ↦ (r, err (invalid_request_state rejected))
]

unfoldable pub reject : MessageRequest → MessageRequest × ActionResult
reject r = elim r.status [
  | pending ↦ (record r { status = rejected }, ok)
  | accepted ↦ (r, err (invalid_request_state accepted))
  | rejected ↦ (r, err (invalid_request_state rejected))
]

unfoldable pub is_accepted : MessageRequest → Bool
is_accepted r = elim r.status [ accepted ↦ true | _ ↦ false ]

unfoldable pub is_pending : MessageRequest → Bool
is_pending r = elim r.status [ pending ↦ true | _ ↦ false ]

-- What a recipient can do.
pub data Action : Type 0 where
  do_accept do_reject : Action

pub act : Action → MessageRequest → MessageRequest × ActionResult
act do_accept r = accept r
act do_reject r = reject r

pub act_all : List Action → MessageRequest → MessageRequest
act_all [] r = r
act_all (a ∷ rest) r = act_all rest (act a r).0

abbrev pub decided : Action → MessageRequestStatus
decided do_accept = accepted
decided do_reject = rejected

act_decided :
    (a : Action) (r : MessageRequest)
    → r.status ≢ pending
    → ((act a r).0 ≡ r) × ((act a r).1 ≡ err (invalid_request_state r.status))
unfolding act accept reject
act_decided do_accept r h = ground arith
act_decided do_reject r h = ground arith

decided_settles : (a : Action) → decided a ≢ pending
decided_settles do_accept = ground arith
decided_settles do_reject = ground arith

act_pending :
    (a : Action) (r : MessageRequest)
    → r.status ≡ pending
    → ((act a r).1 ≡ ok) × ((act a r).0.status ≡ decided a)
unfolding act accept reject
act_pending do_accept r p = ground arith
act_pending do_reject r p = ground arith

act_all_decided :
    (rest : List Action) (r : MessageRequest) → r.status ≢ pending → act_all rest r ≡ r
unfolding act_all
act_all_decided [] r h = refl
act_all_decided (a ∷ rest) r h =
    let stays : (act a r).0 ≡ r = (act_decided a r h).0 in rw stays (act_all_decided rest r h)

-- A request with an introduction of at most 280 characters is pending. The first action on a
-- pending request succeeds and decides it; whatever is tried afterwards, the decision stands and
-- any further action is an error that leaves the request as it is.
pub first_decision :
    (now : ℕ) (sender recipient : Bytes) (text : List ℕ) (first later : Action) (rest : List Action)
    (r : MessageRequest)
    → length text ≤ max_intro_length
    → r.status ≡ pending
    → (new now sender recipient (some text)
        ≡ created (pending_request now sender recipient (some text)))
      × ((act first r).1 ≡ ok)
      × ((act_all (first ∷ rest) r).status ≡ decided first)
      × ((act later (act_all (first ∷ rest) r)).1 ≡ err (invalid_request_state (decided first)))
      × ((act later (act_all (first ∷ rest) r)).0 ≡ act_all (first ∷ rest) r)
unfolding new act_all
first_decision now sender recipient text first later rest r l p =
    let one = act_pending first r p in
    let done : act_all rest (act first r).0 ≡ (act first r).0 =
      act_all_decided rest (act first r).0 (ground (arith, one, decided_settles first)) in
    let last = act_decided later (act first r).0 (ground (arith, one, decided_settles first)) in
    (
      ground arith,
      one.0,
      rw done one.1,
      rw done (last.1 ∙ ap (λ s. err (invalid_request_state s)) one.1),
      rw done last.0,
    )
