-- ===== src/Brain/Limits/Memory.antt =====
-- What the limiters of lib/brain/ratelimit.go remember of a key.
use yu_feng.Base.{
  ℕ, suc, String, ◌≡◌, refl, ◌∙◌, ◌≤◌, true, false, ◌&&◌, List, [], ◌∷◌, ◌++◌, length, keep, arith,
  inl, inr, Bool-cases, str_eq, eq_iff, if◌then◌else◌, leb,
}
use yu_feng.Base.Assoc.{
  Assoc, lookup, insert, delete, lookup-insert, lookup-delete, IsSingle, insert-IsSingle,
  delete-IsSingle,
}
use yu_feng.Brain.Limits.{
  Limiter, admitted, evicted, hits_of, is_due, is_full, is_live, sweep, swept,
}
use yu_feng.Brain.Limits.Windows.{
  IsOrdered, IsOrdered-later, append-IsOrdered, keep-IsOrdered, live_count, live_count-append,
  live_count-keep, dropped_times, lookup-sweep, sweep-IsSingle,
}

-- The limiter remembers of the key's times all that count now or later.
pub record Remembers (window : ℕ) (key : String) (now : ℕ) (times : List ℕ)
    (entries : Assoc (List ℕ)) : Type 0 where
  pub single : IsSingle key entries
  pub ordered : IsOrdered now (hits_of key entries)
  pub counts :
      (later : ℕ)
      → now ≤ later
      → live_count window later (hits_of key entries) ≡ live_count window later times

hits_of-insert :
    (key other : String) (ts : List ℕ) (entries : Assoc (List ℕ))
    → hits_of key (insert other ts entries) ≡ (if str_eq other key then ts else hits_of key entries)
hits_of-insert key other ts entries = elim (Bool-cases (str_eq other key)) [
  | inl hit ↦ rw (lookup-insert other key ts entries, hit) refl
  | inr miss ↦ rw (lookup-insert other key ts entries, miss) refl
]

pub Remembers-later :
    (window : ℕ) (key : String) (now later : ℕ) (times : List ℕ) (entries : Assoc (List ℕ))
    → now ≤ later
    → Remembers window key now times entries
    → Remembers window key later times entries
Remembers-later window key now later times entries le h = record {
  single = h.single;
  ordered = IsOrdered-later now later (hits_of key entries) le h.ordered;
  counts = λ t k. h.counts t (omega arith);
}

sweep-Remembers :
    (window : ℕ) (key : String) (now : ℕ) (times : List ℕ) (entries : Assoc (List ℕ))
    → Remembers window key now times entries
    → Remembers window key now times (sweep window now entries)
sweep-Remembers window key now times entries h =
    let e = lookup-sweep window now key entries h.single in
    let (fine, same) = dropped_times window now (lookup key entries) h.ordered in
    record {
      single = sweep-IsSingle window now key entries h.single;
      ordered = rw (e) fine;
      counts = λ later le. rw (e) (same later le ∙ h.counts later le);
    }

pub swept-Remembers :
    (window period : ℕ) (key : String) (now : ℕ) (times : List ℕ) (l : Limiter)
    → Remembers window key now times l.hits
    → Remembers window key now times (swept window period now l).hits
unfolding swept
swept-Remembers window period key now times l h =
    elim (Bool-cases (is_due period now l.last_sweep)) [
      | inl due ↦ rw (due) (sweep-Remembers window key now times l.hits h)
      | inr early ↦ rw (early) h
    ]

pub evicted-Remembers :
    (window : ℕ) (key : String) (now : ℕ) (times : List ℕ) (victim other : String)
    (entries : Assoc (List ℕ))
    → str_eq victim key ≡ false
    → Remembers window key now times entries
    → Remembers window key now times (evicted victim other entries)
unfolding evicted
evicted-Remembers window key now times victim other entries away h =
    elim (Bool-cases (is_full other entries)) [
      | inl full ↦
          let e : lookup key (delete victim entries) ≡ lookup key entries =
            rw (lookup-delete victim key entries, away) refl in
          rw (full) (record {
            single = delete-IsSingle key victim entries h.single;
            ordered = rw (e) h.ordered;
            counts = λ later le. rw (e) (h.counts later le);
          })
      | inr room ↦ rw (room) h
    ]

-- The times of the key itself are replaced by ones that count the same.
replaced-Remembers :
    (window : ℕ) (key : String) (now : ℕ) (times times' : List ℕ) (other : String) (ts : List ℕ)
    (entries : Assoc (List ℕ))
    → Remembers window key now times entries
    → (str_eq other key ≡ true
        → IsOrdered now ts
          × ((later : ℕ)
              → now ≤ later
              → live_count window later ts ≡ live_count window later times'))
    → (str_eq other key ≡ false → times' ≡ times)
    → Remembers window key now times' (insert other ts entries)
replaced-Remembers window key now times times' other ts entries h own same =
    elim (Bool-cases (str_eq other key)) [
      | inl hit ↦ record {
        single = insert-IsSingle key other ts entries h.single;
        ordered = rw (hits_of-insert key other ts entries, hit) (own hit).0;
        counts = λ later le. rw (hits_of-insert key other ts entries, hit) ((own hit).1 later le);
      }
      | inr miss ↦ record {
        single = insert-IsSingle key other ts entries h.single;
        ordered = rw (hits_of-insert key other ts entries, miss) h.ordered;
        counts = λ later le.
            rw (hits_of-insert key other ts entries, miss, same miss) (h.counts later le);
      }
    ]

kept_times :
    (window : ℕ) (key : String) (now : ℕ) (times : List ℕ) (other : String)
    (entries : Assoc (List ℕ))
    → Remembers window key now times entries
    → str_eq other key ≡ true
    → IsOrdered now (keep (is_live window now) (hits_of other entries))
      × ((later : ℕ)
          → now ≤ later
          → live_count window later (keep (is_live window now) (hits_of other entries))
            ≡ live_count window later times)
kept_times window key now times other entries h hit =
    let same : other ≡ key = ground (arith, hit, eq_iff other key) in
    rw (same) (
      keep-IsOrdered now (is_live window now) (hits_of key entries) h.ordered,
      λ later le. live_count-keep window now later (hits_of key entries) le ∙ h.counts later le,
    )

cons_count :
    (window later now : ℕ) (ts times : List ℕ)
    → live_count window later ts ≡ live_count window later times
    → live_count window later (ts ++ now ∷ []) ≡ live_count window later (now ∷ times)
cons_count window later now ts times h =
    let e = live_count-append window later ts (now ∷ []) in ground arith

pub admitted-Remembers :
    (limit window : ℕ) (key : String) (now : ℕ) (times : List ℕ) (other : String) (l : Limiter)
    → Remembers window key now times l.hits
    → Remembers window key now
        (if (admitted limit window other now l).0 && str_eq other key then now ∷ times else times)
        (admitted limit window other now l).1.hits
unfolding admitted
admitted-Remembers limit window key now times other l h =
    let kept = keep (is_live window now) (hits_of other l.hits) in
    elim (Bool-cases (leb limit (length kept))) [
      | inl over ↦ rw (over) (
          replaced-Remembers window key now times times other kept l.hits h
            (kept_times window key now times other l.hits h) (λ miss. refl))
      | inr room ↦ rw (room) (
          replaced-Remembers window key now times (if str_eq other key then now ∷ times else times)
            other (kept ++ now ∷ []) l.hits h
            (λ hit.
              let (fine, same) = kept_times window key now times other l.hits h hit in
              (
                append-IsOrdered now kept fine,
                λ later le. rw (hit) (cons_count window later now kept times (same later le)),
              ))
            (λ miss. rw (miss) refl))
    ]

-- A time that is admitted finds fewer than `limit` before it in its window.
pub admitted_below :
    (limit window : ℕ) (key : String) (now : ℕ) (times : List ℕ) (l : Limiter)
    → Remembers window key now times l.hits
    → (admitted limit window key now l).0 ≡ true
    → suc (live_count window now times) ≤ limit
unfolding admitted
admitted_below limit window key now times l h e =
    let kept = keep (is_live window now) (hits_of key l.hits) in
    let same : length kept ≡ live_count window now times = h.counts now (omega arith) in
    ground arith
