-- ===== src/Brain/Limits/Bounds.antt =====
-- The gate of long polls of lib/brain/ratelimit.go.
use yu_feng.Base.{
  ℕ, suc, String, ◌≡◌, refl, ap, ◌∙◌, ◌≤◌, ◌-◌, true, false, Option, none, some, List, [], ◌∷◌,
  arith, inl, inr, Bool-cases, str_eq, eq_iff, if◌then◌else◌, leb,
}
use yu_feng.Base.Assoc.{Assoc, lookup, insert, delete, lookup-insert, lookup-delete}
use yu_feng.Brain.Limits.{acquire, count_of, long_poll_concurrency, release}

-- A caller of the gate of long polls: it starts a poll, or ends one.
pub data PollCall : Type 0 where
  start_poll : String → PollCall
  end_poll : String → PollCall

abbrev pub or_kept : Assoc ℕ → Option (Assoc ℕ) → Assoc ℕ
or_kept n none = n
or_kept n (some m) = m

unfoldable pub polls : List PollCall → Assoc ℕ → Assoc ℕ
polls [] n = n
polls (start_poll id ∷ calls) n = polls calls (or_kept n (acquire id n))
polls (end_poll id ∷ calls) n = polls calls (release id n)

count_of-insert :
    (id other : String) (k : ℕ) (n : Assoc ℕ)
    → count_of other (insert id k n) ≡ (if str_eq id other then k else count_of other n)
count_of-insert id other k n = elim (Bool-cases (str_eq id other)) [
  | inl hit ↦ rw (lookup-insert id other k n, hit) refl
  | inr miss ↦ rw (lookup-insert id other k n, miss) refl
]

count_of-delete :
    (id other : String) (n : Assoc ℕ)
    → count_of other (delete id n) ≡ (if str_eq id other then 0 else count_of other n)
count_of-delete id other n = elim (Bool-cases (str_eq id other)) [
  | inl hit ↦ rw (lookup-delete id other n, hit) refl
  | inr miss ↦ rw (lookup-delete id other n, miss) refl
]

acquire_bounded :
    (id other : String) (n : Assoc ℕ)
    → count_of other n ≤ long_poll_concurrency
    → count_of other (or_kept n (acquire id n)) ≤ long_poll_concurrency
unfolding acquire
acquire_bounded id other n h = elim (Bool-cases (leb long_poll_concurrency (count_of id n))) [
  | inl full ↦ rw (full) h
  | inr room ↦ rw (room, count_of-insert id other (suc (count_of id n)) n) (ground (arith, room, h))
]

release_bounded :
    (id other : String) (n : Assoc ℕ)
    → ((k : String) → count_of k n ≤ long_poll_concurrency)
    → count_of other (release id n) ≤ long_poll_concurrency
unfolding release
release_bounded id other n h =
    let h1 = h id in
    let h2 = h other in
    elim (Bool-cases (leb (count_of id n) 1)) [
      | inl last ↦ rw (last, count_of-delete id other n) (ground (arith, h2))
      | inr more ↦
          rw (more, count_of-insert id other (count_of id n - 1) n) (ground (arith, h1, h2))
    ]

polls_from :
    (calls : List PollCall) (n : Assoc ℕ)
    → ((k : String) → count_of k n ≤ long_poll_concurrency)
    → (k : String) → count_of k (polls calls n) ≤ long_poll_concurrency
unfolding polls
polls_from [] n h k = h k
polls_from (start_poll id ∷ calls) n h k =
    polls_from calls (or_kept n (acquire id n)) (λ j. acquire_bounded id j n (h j)) k
polls_from (end_poll id ∷ calls) n h k =
    polls_from calls (release id n) (λ j. release_bounded id j n h) k

-- Whatever polls start and end, in whatever order, no agent ever has more than four on record.
pub polls_bounded :
    (calls : List PollCall) (id : String) → count_of id (polls calls []) ≤ long_poll_concurrency
unfolding lookup
polls_bounded calls id = polls_from calls [] (λ k. omega arith) id

-- A poll that starts and ends leaves the count of every agent as it was.
pub release-acquire :
    (id other : String) (n m : Assoc ℕ)
    → acquire id n ≡ some m
    → count_of other (release id m) ≡ count_of other n
unfolding acquire release
release-acquire id other n m h =
    let (_, same) : (leb long_poll_concurrency (count_of id n) ≡ false)
        × (insert id (suc (count_of id n)) n ≡ m) =
      ground arith in
    let own : count_of id m ≡ suc (count_of id n) =
      rw (← same, count_of-insert id id (suc (count_of id n)) n) (ground (arith, eq_iff id id)) in
    let others : count_of other m
        ≡ (if str_eq id other then suc (count_of id n) else count_of other n) =
      rw (← same) (count_of-insert id other (suc (count_of id n)) n) in
    let agree : str_eq id other ≡ true → id ≡ other = λ e. ground (arith, e, eq_iff id other) in
    elim (Bool-cases (str_eq id other)) [
      | inl hit ↦
          let one : id ≡ other = agree hit in
          let counts : count_of id n ≡ count_of other n = ap (λ k. count_of k n) one in
          elim (Bool-cases (leb (count_of id m) 1)) [
            | inl last ↦ rw (last, count_of-delete id other m, hit) (ground (arith, last))
            | inr more ↦
                rw (more, count_of-insert id other (count_of id m - 1) m, hit)
                  (ground (arith, more))
          ]
      | inr miss ↦
          let still : count_of other m ≡ count_of other n = others ∙ rw (miss) refl in
          elim (Bool-cases (leb (count_of id m) 1)) [
            | inl last ↦ rw (last, count_of-delete id other m, miss) still
            | inr more ↦ rw (more, count_of-insert id other (count_of id m - 1) m, miss) still
          ]
    ]
