-- ===== src/Catalog/Client/Laws.antt =====
-- What an answer of the client is worth to its callers.
use sales_journal.Prelude.{
  Bool-cases, List, Result, Result-cases, [], ap, arith, err, false, inl, inr, length, ok, refl,
  suc, zero, ℕ, ◌+◌, ◌-◌, ◌∷◌, ◌≡◌, ◌≤◌,
}
use sales_journal.Catalog.Client.{
  Request, Answer, Reply, ReplyItem, LookupError, is_foreign, any_foreign, answers_of, check_reply,
  is_misnumbered, attempt_reply, attempt_from, lookup_products,
}

-- One answer for each request, in their order, a match being by a field that its request holds.
pub data Answered : List Request → List Answer → Type 0 where
  none_left : Answered [] []
  next :
      {r : Request} {a : Answer} {rs : List Request} {as' : List Answer}
      → is_foreign r a ≡ false
      → Answered rs as'
      → Answered (r ∷ rs) (a ∷ as')

pub Answered-length :
    {rs : List Request} {as' : List Answer} → Answered rs as' → length as' ≡ length rs
Answered-length none_left = refl
Answered-length (next _ rest) = ap suc (Answered-length rest)

any_foreign-Answered :
    (rs : List Request) (is : List ReplyItem)
    → length is ≡ length rs
    → any_foreign rs is ≡ false
    → Answered rs (answers_of is)
unfolding any_foreign answers_of
any_foreign-Answered [] [] e h = none_left
any_foreign-Answered [] (i ∷ is) e h = absurd (omega (arith, e))
any_foreign-Answered (r ∷ rs) [] e h = absurd (omega (arith, e))
any_foreign-Answered (r ∷ rs) (i ∷ is) e h =
    next (ground arith) (any_foreign-Answered rs is (omega arith) (ground arith))

check_reply-Answered :
    (rs : List Request) (reply : Reply) (answers : List Answer)
    → check_reply rs reply ≡ ok answers
    → Answered rs answers
unfolding check_reply
check_reply-Answered rs reply answers h =
    let e : length reply.items ≡ length rs = ground arith in
    let f : any_foreign rs reply.items ≡ false = ground arith in
    let same : answers_of reply.items ≡ answers = ground arith in
    rw (← same) (any_foreign-Answered rs reply.items e f)

attempt_reply-Answered :
    (rs : List Request) (r : Result LookupError Reply) (answers : List Answer)
    → attempt_reply rs r ≡ ok answers
    → Answered rs answers
unfolding attempt_reply
attempt_reply-Answered rs (err e) answers h = cc
attempt_reply-Answered rs (ok reply) answers h = check_reply-Answered rs reply answers h

attempt_from-Answered :
    (network : ℕ → Result LookupError Reply) (rs : List Request) (attempt left : ℕ)
    (answers : List Answer)
    → attempt_from network rs attempt left ≡ ok answers
    → Answered rs answers
unfolding attempt_from
attempt_from-Answered network rs attempt zero answers h =
    attempt_reply-Answered rs (network attempt) answers h
attempt_from-Answered network rs attempt (suc left) answers h =
    elim (Result-cases (attempt_reply rs (network attempt))) [
      | inr (found, p) ↦ attempt_reply-Answered rs (network attempt) answers (ground arith)
      | inl (e, p) ↦ elim (Bool-cases e.retryable) [
        | inl again ↦ attempt_from-Answered network rs (attempt + 1) left answers (ground arith)
        | inr final ↦ absurd (ground arith)
      ]
    ]

-- The items carry the positions `index`, `index + 1` and so on.
pub IsNumbered : ℕ → List ReplyItem → Type 0
IsNumbered index [] = Unit
IsNumbered index (item ∷ items) = (item.request_index ≡ index) × IsNumbered (index + 1) items

is_misnumbered-IsNumbered :
    (index : ℕ) (items : List ReplyItem)
    → is_misnumbered index items ≡ false
    → IsNumbered index items
unfolding is_misnumbered IsNumbered
is_misnumbered-IsNumbered index [] h = tt
is_misnumbered-IsNumbered index (item ∷ items) h =
    (ground arith, is_misnumbered-IsNumbered (index + 1) items (ground arith))

-- The answers are those of a reply that the network gave in one of the attempts, and each item of it
-- names the position at which it stands.
abbrev pub Replied : (ℕ → Result LookupError Reply) → ℕ → ℕ → List Answer → Type 0
Replied network first last answers =
    (n : ℕ) × (reply : Reply) × (first ≤ n)
    × (n ≤ last)
    × (network n ≡ ok reply)
    × IsNumbered 0 reply.items
    × (answers ≡ answers_of reply.items)

attempt_reply-Replied :
    (network : ℕ → Result LookupError Reply) (rs : List Request) (n last : ℕ)
    (answers : List Answer)
    → n ≤ last
    → attempt_reply rs (network n) ≡ ok answers
    → Replied network n last answers
unfolding attempt_reply check_reply
attempt_reply-Replied network rs n last answers within h = elim (Result-cases (network n)) [
  | inl (e, failed) ↦ absurd (ground arith)
  | inr (reply, came) ↦
      let good : check_reply rs reply ≡ ok answers = rw (came, attempt_reply) at h in
      let numbered : is_misnumbered 0 reply.items ≡ false = ground arith in
      (
        n,
        reply,
        omega arith,
        within,
        came,
        is_misnumbered-IsNumbered 0 reply.items numbered,
        ground arith,
      )
]

attempt_from-Replied :
    (network : ℕ → Result LookupError Reply) (rs : List Request) (attempt left : ℕ)
    (answers : List Answer)
    → attempt_from network rs attempt left ≡ ok answers
    → Replied network attempt (attempt + left) answers
unfolding attempt_from
attempt_from-Replied network rs attempt zero answers h =
    attempt_reply-Replied network rs attempt (attempt + 0) answers (omega arith) h
attempt_from-Replied network rs attempt (suc left) answers h =
    elim (Result-cases (attempt_reply rs (network attempt))) [
      | inr (found, p) ↦
          attempt_reply-Replied network rs attempt (attempt + suc left) answers (omega arith)
            (ground arith)
      | inl (e, p) ↦ elim (Bool-cases e.retryable) [
        | inl again ↦
            let (n, reply, low, high, came, numbered, same) =
              attempt_from-Replied network rs (attempt + 1) left answers (ground arith) in
            (n, reply, omega arith, omega arith, came, numbered, same)
        | inr final ↦ absurd (ground arith)
      ]
    ]

pub lookup_products-Answered :
    (network : ℕ → Result LookupError Reply) (attempts : ℕ) (requests : List Request)
    (answers : List Answer)
    → lookup_products network attempts requests ≡ ok answers
    → Answered requests answers
unfolding lookup_products
lookup_products-Answered network attempts requests answers h =
    attempt_from-Answered network requests 0 (attempts - 1) answers (ground arith)

zero_first :
    {network : ℕ → Result LookupError Reply} {answers : List Answer} (last : ℕ)
    → Replied network 0 (0 + last) answers
    → Replied network 0 last answers
zero_first last (n, reply, low, high, came, numbered, same) =
    (n, reply, low, omega arith, came, numbered, same)

-- Whatever the network does, and however often the client tries again, the answers that it returns
-- are one for each request, none of them a match by a field that the request lacks. They are those
-- of one reply among the allowed attempts, whose items name the positions 0, 1, 2 and so on of the
-- requests in that order.
pub lookup_products-in_order :
    (network : ℕ → Result LookupError Reply) (attempts : ℕ) (requests : List Request)
    (answers : List Answer)
    → lookup_products network attempts requests ≡ ok answers
    → Answered requests answers × Replied network 0 (attempts - 1) answers
unfolding lookup_products
lookup_products-in_order network attempts requests answers h = (
  lookup_products-Answered network attempts requests answers h,
  zero_first (attempts - 1)
      (attempt_from-Replied network requests 0 (attempts - 1) answers (ground arith)),
)
