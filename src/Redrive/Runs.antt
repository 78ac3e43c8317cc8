-- ===== src/Redrive/Runs.antt =====
-- When the loop ends, and what it has done then.
use Prim.Native.String
use logistics_platform.Prelude.{
  ℕ, zero, suc, ◌+◌, String, ◌≡◌, refl, sym, ap, ◌∙◌, subst, inl, inr, Bool, true, false, not,
  Bool-cases, Option, none, some, List, [], ◌∷◌, ◌++◌, append_nil, append_assoc, ◌==◌, eq_refl, map,
  length, All, arith,
}
use logistics_platform.Number.{Number}
use logistics_platform.Redrive.{
  Message, Queues, set_queue, Redriving, id_of, stamped, below, redrive_one, redrive_loop, redrive,
}
use logistics_platform.Redrive.Names.{target_queue-dlq, dlq_is_other, dlq_differs}
use logistics_platform.Redrive.Counts.{max_count}
use logistics_platform.Redrive.Limits.{
  due, below-due, selected, unselected, reached, next_reached, not_yet,
}

add_one : (p n : ℕ) → p + 1 + n ≡ p + suc n
add_one p n = omega arith

abbrev pub started : Queues → Redriving
started queues = record { queues = queues; redriven = []; failed = []; processed = 0 }

module _ (accepts : Message → Bool) (base : String) (clock : ℕ → String) where
  abbrev pub dlq : String
  dlq = String.◌++◌ base ".dlq"

  -- The messages as they arrive, the first of them at the time of the count `n`.
  abbrev pub moved : ℕ → List Message → List Message
  moved n [] = []
  moved n (m ∷ ms) = stamped dlq (clock n) m ∷ moved (suc n) ms

  -- From the first state to the second `ms` were moved, and `rest` was left.
  pub record Redriven (ms rest : List Message) (st st' : Redriving) : Type 0 where
    pub left : st'.queues dlq ≡ rest
    pub delivered : st'.queues base ≡ st.queues base ++ moved st.processed ms
    pub others :
        (q : String) → (q == dlq) ≡ false → (q == base) ≡ false → st'.queues q ≡ st.queues q
    pub redriven : st'.redriven ≡ st.redriven ++ map id_of ms
    pub failed : st'.failed ≡ st.failed
    pub processed : st'.processed ≡ st.processed + length ms

  -- A message that was sent.
  abbrev sent : Message → List Message → Redriving → Redriving
  sent m rest st = record {
    queues =
        set_queue (set_queue st.queues dlq rest) base
          (st.queues base ++ stamped dlq (clock st.processed) m ∷ []);
    redriven = st.redriven ++ id_of m ∷ [];
    failed = st.failed;
    processed = st.processed + 1;
  }

  redrive_one-sent :
      (m : Message) (rest : List Message) (st : Redriving)
      → accepts m ≡ true
      → redrive_one accepts dlq clock m rest st ≡ sent m rest st
  unfolding redrive_one
  redrive_one-sent m rest st taken =
      rw taken (rw (target_queue-dlq base) (rw (dlq_is_other base) refl))

  module _ (count : Number) where
    loop-sent :
        (fuel : ℕ) (m : Message) (rest : List Message) (st : Redriving)
        → below st.processed count ≡ true
        → st.queues dlq ≡ m ∷ rest
        → accepts m ≡ true
        → redrive_loop accepts dlq clock count (suc fuel) st
          ≡ redrive_loop accepts dlq clock count fuel (sent m rest st)
    unfolding redrive_loop
    loop-sent fuel m rest st more here taken =
        rw (more, redrive_loop)
          (rw (here, redrive_loop) (rw (redrive_one-sent m rest st taken) refl))

    -- The count is reached after as many messages as `left` says.
    abbrev Due : Option ℕ → ℕ → Type 0
    Due left p = (n : ℕ) → below (p + n) count ≡ not (reached n left)

    Due-next : (k p : ℕ) → Due (some (suc k)) p → Due (some k) (p + 1)
    Due-next k p due_ n =
        ap (λ m. below m count) (add_one p n) ∙ (due_ (suc n) ∙ ap not (next_reached k n))

    Due-always : (p : ℕ) → Due none p → Due none (p + 1)
    Due-always p due_ n = ap (λ m. below m count) (add_one p n) ∙ due_ (suc n)

  Redriven-nothing :
      (ms : List Message) (st : Redriving) → st.queues dlq ≡ ms → Redriven [] ms st st
  Redriven-nothing ms st here = record {
    left = here;
    delivered = sym (append_nil _);
    others = λ q far away. refl;
    redriven = sym (append_nil _);
    failed = refl;
    processed = omega arith;
  }

  sent_base :
      (m : Message) (rest : List Message) (st : Redriving)
      → (sent m rest st).queues base ≡ st.queues base ++ stamped dlq (clock st.processed) m ∷ []
  sent_base m rest st = rw (eq_refl base) refl

  sent-dlq :
      (m : Message) (rest : List Message) (st : Redriving) → (sent m rest st).queues dlq ≡ rest
  sent-dlq m rest st = rw (dlq_differs base) (rw (eq_refl dlq) refl)

  Redriven-one :
      (m : Message) (ms rest all : List Message) (st st' : Redriving)
      → Redriven ms rest (sent m all st) st'
      → Redriven (m ∷ ms) rest st st'
  Redriven-one m ms rest all st st' r = record {
    left = r.left;
    delivered =
        r.delivered
        ∙ (ap (λ xs. xs ++ moved (st.processed + 1) ms) (sent_base m all st)
            ∙ (append_assoc (st.queues base) (stamped dlq (clock st.processed) m ∷ [])
                  (moved (st.processed + 1) ms)
                ∙ ap (λ n. st.queues base ++ stamped dlq (clock st.processed) m ∷ moved n ms)
                    (omega arith)));
    others = λ q far away. r.others q far away ∙ rw (far, away) refl;
    redriven = r.redriven ∙ append_assoc st.redriven (id_of m ∷ []) (map id_of ms);
    failed = r.failed;
    processed = omega (arith, r.processed);
  }

  module _ (count : Number) where
    -- The loop ends, with what is selected moved.
    pub record Ends (left : Option ℕ) (ms : List Message) (st : Redriving) : Type 0 where
      pub st' : Redriving
      pub returned : redrive_loop accepts dlq clock count (suc (length ms)) st ≡ some st'
      pub moves : Redriven (selected left ms) (unselected left ms) st st'

    loop-stops :
        (fuel : ℕ) (st : Redriving)
        → below st.processed count ≡ false
        → redrive_loop accepts dlq clock count (suc fuel) st ≡ some st
    unfolding redrive_loop
    loop-stops fuel st full = rw (full, redrive_loop) refl

    loop-empty :
        (fuel : ℕ) (st : Redriving)
        → st.queues dlq ≡ []
        → redrive_loop accepts dlq clock count (suc fuel) st ≡ some st
    unfolding redrive_loop
    loop-empty fuel st here = elim (Bool-cases (below st.processed count)) [
      | inl more ↦ rw (more, redrive_loop) (rw (here, redrive_loop) refl)
      | inr full ↦ loop-stops fuel st full
    ]

    now-Due : (left : Option ℕ) (p : ℕ) → Due count left p → below p count ≡ not (reached 0 left)
    now-Due left p due_ = ap (λ n. below n count) (omega arith) ∙ due_ 0

    one_more :
        (left left' : Option ℕ) (m : Message) (ms : List Message) (st : Redriving)
        → selected left (m ∷ ms) ≡ m ∷ selected left' ms
        → unselected left (m ∷ ms) ≡ unselected left' ms
        → below st.processed count ≡ true
        → st.queues dlq ≡ m ∷ ms
        → accepts m ≡ true
        → Ends left' ms (sent m ms st)
        → Ends left (m ∷ ms) st
    one_more left left' m ms st takes leaves more here taken e = record {
      st' = e.st';
      returned = loop-sent count (suc (length ms)) m ms st more here taken ∙ e.returned;
      moves =
          subst (λ xs. Redriven xs (unselected left (m ∷ ms)) st e.st') (sym takes)
            (subst (λ ys. Redriven (m ∷ selected left' ms) ys st e.st') (sym leaves)
              (Redriven-one m (selected left' ms) (unselected left' ms) ms st e.st' e.moves));
    }

    loop-Ends :
        (left : Option ℕ) (ms : List Message) (st : Redriving)
        → Due count left st.processed
        → All (λ m. accepts m ≡ true) (selected left ms)
        → st.queues dlq ≡ ms
        → Ends left ms st
    loop-Ends none [] st due_ taken here = record {
      st' = st;
      returned = loop-empty 0 st here;
      moves = Redriven-nothing [] st here;
    }
    loop-Ends none (m ∷ ms) st due_ (yes_it_is, taken) here =
        one_more none none m ms st refl refl (now-Due none st.processed due_) here yes_it_is (
          loop-Ends none ms (sent m ms st) (Due-always count st.processed due_) taken
            (sent-dlq m ms st))
    loop-Ends (some zero) ms st due_ taken here = record {
      st' = st;
      returned = loop-stops (length ms) st (now-Due (some 0) st.processed due_);
      moves = Redriven-nothing ms st here;
    }
    loop-Ends (some (suc k)) [] st due_ taken here = record {
      st' = st;
      returned = loop-empty 0 st here;
      moves = Redriven-nothing [] st here;
    }
    loop-Ends (some (suc k)) (m ∷ ms) st due_ (yes_it_is, taken) here =
        one_more (some (suc k)) (some k) m ms st refl refl
          (now-Due (some (suc k)) st.processed due_ ∙ ap not (not_yet k)) here yes_it_is
          (loop-Ends (some k) ms (sent m ms st) (Due-next count k st.processed due_) taken
            (sent-dlq m ms st))

  -- For a dead-letter queue whose name ends in .dlq and a broker that takes each of the messages
  -- that the count selects, the command redrive ends after one round per message and one more: the
  -- selected messages, the first of the queue up to the count and all of them for 'all', stand
  -- behind those of the queue without the suffix in their order, each with its two headers and the
  -- name of that queue as its routing key, and are counted; the rest stays in the dead-letter
  -- queue, no other queue changes and none has failed. A count that is no number selects nothing.
  pub redrive-Redriven :
      (count : String) (queues : Queues)
      → let left = due (max_count count) in
        All (λ m. accepts m ≡ true) (selected left (queues dlq))
        → (st' : Redriving) × (redrive accepts dlq clock count (suc (length (queues dlq))) queues
            ≡ some st')
          × Redriven
              (selected left (queues dlq))
              (unselected left (queues dlq))
              (started queues)
              st'
  unfolding redrive
  redrive-Redriven count queues taken =
      let e =
        loop-Ends (max_count count) (due (max_count count)) (queues dlq) (started queues)
          (λ n. ap (λ m. below m (max_count count)) (omega arith) ∙ below-due (max_count count) n)
          taken refl in
      (e.st', e.returned, e.moves)
