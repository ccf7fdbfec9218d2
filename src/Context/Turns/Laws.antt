-- ===== src/Context/Turns/Laws.antt =====
-- The system indices and the turns are a partition of the transcript, in its order, and a
-- window is an ascending choice of its indices.
use mathlib.Core.Path.{subst}
use local_agent_runtime.Base.{
  ℕ, zero, suc, ◌-◌, ◌≤◌, ◌<◌, String, append-nil, append_assoc, ◌≡◌, refl, sym, ap, ◌∙◌, List, [],
  ◌∷◌, ◌++◌, arith, str_eq, ◌==◌, Bool-cases, inl, inr, length, drop, flatten, range_from, All,
  length-append, length-drop, insert_sorted, sorted,
}
use local_agent_runtime.Contracts.{Message}
use local_agent_runtime.Context.Estimate.{at_most}
use local_agent_runtime.Context.Turns.{
  append_last, turns_step, turns_loop, turns_of, last_turns, suffix,
}

abbrev joined : List ℕ × List (List ℕ) → List ℕ
joined (system, turns) = system ++ flatten turns

flatten-append : (xss yss : List (List ℕ)) → flatten (xss ++ yss) ≡ flatten xss ++ flatten yss
flatten-append [] yss = refl
flatten-append (xs ∷ xss) yss =
    rw (flatten-append xss yss) (sym (append_assoc xs (flatten xss) (flatten yss)))

flatten-append_last :
    (t : List ℕ) (ts : List (List ℕ)) (i : ℕ)
    → flatten (append_last (t ∷ ts) i) ≡ flatten (t ∷ ts) ++ i ∷ []
unfolding append_last
flatten-append_last t [] i = simp append-nil
flatten-append_last t (u ∷ ts) i = rw (flatten-append_last u ts i) (simp append_assoc)

joined-turns_step :
    (i : ℕ) (role : String) (found : List ℕ × List (List ℕ))
    → joined (turns_step i role found) ≡ joined found ++ i ∷ []
unfolding turns_step
joined-turns_step i role (system, []) = elim (Bool-cases (str_eq role "system")) [
  | inl is_system ↦ rw is_system (simp append-nil)
  | inr other ↦ elim (Bool-cases (str_eq role "user")) [
    | inl is_user ↦ rw (other, is_user) (simp append-nil)
    | inr reply ↦ rw (other, reply) (simp append-nil)
  ]
]
joined-turns_step i role (system, t ∷ ts) =
    let extended : system ++ (flatten (t ∷ ts) ++ i ∷ []) ≡ (system ++ flatten (t ∷ ts)) ++ i ∷ [] =
      sym (append_assoc system (flatten (t ∷ ts)) (i ∷ [])) in
    elim (Bool-cases (str_eq role "system")) [
      | inl is_system ↦ elim (Bool-cases (str_eq role "user")) [
        | inl is_user ↦ rw (is_system, is_user, flatten-append (t ∷ ts)) extended
        | inr reply ↦ rw (is_system, reply, flatten-append_last) extended
      ]
      | inr other ↦ elim (Bool-cases (str_eq role "user")) [
        | inl is_user ↦ rw (other, is_user, flatten-append (t ∷ ts)) extended
        | inr reply ↦ rw (other, reply, flatten-append_last) extended
      ]
    ]

joined-turns_loop :
    (i : ℕ) (ms : List Message) (found : List ℕ × List (List ℕ))
    → joined (turns_loop i ms found) ≡ joined found ++ range_from i (length ms)
unfolding turns_loop
joined-turns_loop i [] found = sym (append-nil (joined found))
joined-turns_loop i (m ∷ ms) found =
    joined-turns_loop (suc i) ms (turns_step i m.role found)
    ∙ (ap (λ found. found ++ range_from (suc i) (length ms)) (joined-turns_step i m.role found)
        ∙ append_assoc (joined found) (i ∷ []) (range_from (suc i) (length ms)))

-- The system indices followed by the turns are all indices of the transcript, in order: no
-- message is lost, repeated or moved when the transcript is cut into turns.
pub turns_of-partition :
    (messages : List Message)
    → (turns_of messages).0 ++ flatten (turns_of messages).1 ≡ range_from 0 (length messages)
unfolding turns_of
turns_of-partition messages = joined-turns_loop 0 messages ([], [])

abbrev pub Ascending : List ℕ → Type 0
Ascending [] = Unit
Ascending (n ∷ ns) = All (λ k. n < k) ns × Ascending ns

All-range_from : (low start n : ℕ) → low < start → All (λ k. low < k) (range_from start n)
All-range_from low start zero h = tt
All-range_from low start (suc n) h = (h, All-range_from low (suc start) n (omega arith))

Ascending-range_from : (start n : ℕ) → Ascending (range_from start n)
Ascending-range_from start zero = tt
Ascending-range_from start (suc n) =
    (All-range_from start (suc start) n (omega arith), Ascending-range_from (suc start) n)

All-skip : (P : ℕ → Type 0) (xs ys zs : List ℕ) → All P (xs ++ (ys ++ zs)) → All P (xs ++ zs)
All-skip P [] [] zs h = h
All-skip P [] (y ∷ ys) zs h = All-skip P [] ys zs h.1
All-skip P (x ∷ xs) ys zs h = (h.0, All-skip P xs ys zs h.1)

Ascending-skip : (xs ys zs : List ℕ) → Ascending (xs ++ (ys ++ zs)) → Ascending (xs ++ zs)
Ascending-skip [] [] zs h = h
Ascending-skip [] (y ∷ ys) zs h = Ascending-skip [] ys zs h.1
Ascending-skip (x ∷ xs) ys zs h = (All-skip (λ k. x < k) xs ys zs h.0, Ascending-skip xs ys zs h.1)

-- What `drop` leaves out is a prefix.
flatten-drop :
    (n : ℕ) (turns : List (List ℕ))
    → (before : List ℕ) × (flatten turns ≡ before ++ flatten (drop n turns))
flatten-drop zero turns = ([], refl)
flatten-drop (suc n) [] = ([], refl)
flatten-drop (suc n) (t ∷ ts) =
    let (before, e) = flatten-drop n ts in
    (t ++ before, rw e (sym (append_assoc t before (flatten (drop n ts)))))

flatten-last_turns :
    (kept : ℕ) (turns : List (List ℕ))
    → (before : List ℕ) × (flatten turns ≡ before ++ flatten (last_turns kept turns))
unfolding last_turns
flatten-last_turns kept turns = elim (Bool-cases (kept == 0)) [
  | inl whole ↦ rw whole ([], refl)
  | inr some_kept ↦ rw some_kept (flatten-drop (length turns - kept) turns)
]

drop-split :
    (n : ℕ) (turns : List (List ℕ)) → (before : List (List ℕ)) × (turns ≡ before ++ drop n turns)
drop-split zero turns = ([], refl)
drop-split (suc n) [] = ([], refl)
drop-split (suc n) (t ∷ ts) =
    let (before, e) = drop-split n ts in (t ∷ before, ap (λ rest. t ∷ rest) e)

-- A window keeps as many of the last turns as it is asked for, the current one among them.
pub last_turns-split :
    (kept : ℕ) (turns : List (List ℕ))
    → at_most (length turns) 1 ≤ kept
    → kept ≤ length turns
    → (before : List (List ℕ)) × (turns ≡ before ++ last_turns kept turns)
      × (length (last_turns kept turns) ≡ kept)
unfolding last_turns
last_turns-split kept turns lo hi = elim (Bool-cases (kept == 0)) [
  | inl whole ↦ rw whole ([], refl, ground arith)
  | inr some_kept ↦ rw some_kept (
      let (before, e) = drop-split (length turns - kept) turns in
      (before, e, omega (arith, length-drop (length turns - kept) turns)))
]

-- Every window lists its indices in ascending order, without repetition.
pub suffix-Ascending :
    (messages : List Message) (kept : ℕ)
    → Ascending (suffix (turns_of messages).0 (turns_of messages).1 kept)
unfolding suffix
suffix-Ascending messages kept =
    let (system, turns) = turns_of messages in
    let (before, e) = flatten-last_turns kept turns in
    Ascending-skip system before (flatten (last_turns kept turns)) (
      subst Ascending (sym (turns_of-partition messages) ∙ ap (λ rest. system ++ rest) e)
        (Ascending-range_from 0 (length messages)))

insert_sorted-first : (n : ℕ) (ns : List ℕ) → All (λ k. n < k) ns → insert_sorted n ns ≡ n ∷ ns
insert_sorted-first n [] h = refl
insert_sorted-first n (k ∷ ks) h = ground arith

pub sorted-Ascending : (ns : List ℕ) → Ascending ns → sorted ns ≡ ns
sorted-Ascending [] h = refl
sorted-Ascending (n ∷ ns) h = rw (sorted-Ascending ns h.1) (insert_sorted-first n ns h.0)

length-range_from : (start n : ℕ) → length (range_from start n) ≡ n
length-range_from start zero = refl
length-range_from start (suc n) = ap suc (length-range_from (suc start) n)

-- A window holds as many indices as the transcript has messages, at most.
pub length-suffix-le :
    (messages : List Message) (kept : ℕ)
    → length (suffix (turns_of messages).0 (turns_of messages).1 kept) ≤ length messages
unfolding suffix
length-suffix-le messages kept =
    let (system, turns) = turns_of messages in
    let (before, e) = flatten-last_turns kept turns in
    omega (
      arith,
      ap length e,
      ap length (turns_of-partition messages),
      length-append system (flatten turns),
      length-append system (flatten (last_turns kept turns)),
      length-append before (flatten (last_turns kept turns)),
      length-range_from 0 (length messages),
    )
