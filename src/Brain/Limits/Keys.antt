-- ===== src/Brain/Limits/Keys.antt =====
-- How many keys a limiter of lib/brain/ratelimit.go has.
use yu_feng.Base.{
  ℕ, suc, String, ◌≡◌, ◌≤◌, true, Option, List, [], ◌∷◌, ◌++◌, length, keep, arith, inl, inr,
  Bool-cases, leb, is_some,
}
use yu_feng.Base.Assoc.{Assoc, lookup, insert, delete, length-insert_le}
use yu_feng.Brain.Limits.{
  Limiter, admitted, evicted, is_due, is_full, is_live, is_stale, limiter_key_limit, hits_of, sweep,
  sweep_period, swept, window_allow,
}

length-insert_held :
    (key : String) (ts : List ℕ) (entries : Assoc (List ℕ))
    → is_some (lookup key entries) ≡ true
    → length (insert key ts entries) ≡ length entries
unfolding lookup insert
length-insert_held key ts [] h = ground arith
length-insert_held key ts ((name, us) ∷ entries) h =
    let rest = length-insert_held key ts entries in ground arith

length-delete_le :
    (key : String) (entries : Assoc (List ℕ)) → length (delete key entries) ≤ length entries
unfolding delete
length-delete_le key [] = omega arith
length-delete_le key ((name, us) ∷ entries) =
    let rest = length-delete_le key entries in ground arith

length-delete_held :
    (key : String) (entries : Assoc (List ℕ))
    → is_some (lookup key entries) ≡ true
    → suc (length (delete key entries)) ≤ length entries
unfolding delete lookup
length-delete_held key [] h = ground arith
length-delete_held key ((name, us) ∷ entries) h =
    let rest = length-delete_held key entries in
    let le = length-delete_le key entries in ground arith

length-sweep_le :
    (window now : ℕ) (entries : Assoc (List ℕ)) → length (sweep window now entries) ≤ length entries
unfolding sweep
length-sweep_le window now [] = omega arith
length-sweep_le window now ((name, us) ∷ entries) =
    let rest = length-sweep_le window now entries in
    elim (Bool-cases (is_stale window now us)) [
      | inl stale ↦ rw (stale) (omega arith)
      | inr fresh ↦ rw (fresh) (omega arith)
    ]

swept_le :
    (window period now : ℕ) (l : Limiter) → length (swept window period now l).hits ≤ length l.hits
unfolding swept
swept_le window period now l = elim (Bool-cases (is_due period now l.last_sweep)) [
  | inl due ↦ rw (due) (length-sweep_le window now l.hits)
  | inr early ↦ rw (early) (omega arith)
]

-- After a key is dropped from a full limiter there is room for the caller's.
evicted_room :
    (victim key : String) (ts : List ℕ) (entries : Assoc (List ℕ))
    → length entries ≤ limiter_key_limit
    → (is_full key entries ≡ true → is_some (lookup victim entries) ≡ true)
    → length (insert key ts (evicted victim key entries)) ≤ limiter_key_limit
unfolding evicted
evicted_room victim key ts entries h picked = elim (Bool-cases (is_full key entries)) [
  | inl full ↦
      let le = length-insert_le key ts (delete victim entries) in
      let less = length-delete_held victim entries (picked full) in rw (full) (omega arith)
  | inr room ↦
      let le = length-insert_le key ts entries in
      let held = length-insert_held key ts entries in rw (room) (ground (arith, room, held))
]

admitted_room :
    (limit window : ℕ) (victim key : String) (now : ℕ) (entries : Assoc (List ℕ)) (last : Option ℕ)
    → length entries ≤ limiter_key_limit
    → (is_full key entries ≡ true → is_some (lookup victim entries) ≡ true)
    → length
        (admitted limit window key now
          (record { hits = evicted victim key entries; last_sweep = last })).1.hits
      ≤ limiter_key_limit
unfolding admitted
admitted_room limit window victim key now entries last h picked =
    let kept = keep (is_live window now) (hits_of key (evicted victim key entries)) in
    elim (Bool-cases (leb limit (length kept))) [
      | inl over ↦ rw (over) (evicted_room victim key kept entries h picked)
      | inr room ↦ rw (room) (evicted_room victim key (kept ++ now ∷ []) entries h picked)
    ]

-- A limiter that has no more than ten thousand keys still has no more after a call, where the entry
-- that is dropped from a full one is one that it has.
pub window_allow_bounded :
    (limit window : ℕ) (victim key : String) (now : ℕ) (l : Limiter)
    → length l.hits ≤ limiter_key_limit
    → (is_full key (swept window (sweep_period window) now l).hits ≡ true
        → is_some (lookup victim (swept window (sweep_period window) now l).hits) ≡ true)
    → length (window_allow limit window victim key now l).1.hits ≤ limiter_key_limit
unfolding window_allow
window_allow_bounded limit window victim key now l h picked =
    let l1 = swept window (sweep_period window) now l in
    let le = swept_le window (sweep_period window) now l in
    admitted_room limit window victim key now l1.hits l1.last_sweep (omega arith) picked
