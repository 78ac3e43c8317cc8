-- ===== src/Redrive/Endless.antt =====
-- When the loop of `redrive` does not end.
use logistics_platform.Prelude.{
  ℕ, zero, suc, String, ◌≡◌, refl, Bool, true, false, none, List, [], ◌∷◌, ◌++◌, eq_refl,
}
use logistics_platform.Number.{Number, infinity}
use logistics_platform.Redrive.{
  Message, Queues, Redriving, stamped, below, redrive_one, redrive_loop, redrive,
}
use logistics_platform.Redrive.Names.{target_queue}
use logistics_platform.Redrive.Counts.{max_count}
use logistics_platform.Redrive.Runs.{started}

module _ (accepts : Message → Bool) (queue : String) (clock : ℕ → String) where
  -- If the broker refuses the first message of the queue and the count is not reached, the loop of
  -- redrive does not end with any number of rounds.
  pub redrive-stuck :
      (fuel : ℕ) (count : Number) (m : Message) (rest : List Message) (st : Redriving)
      → accepts m ≡ false
      → st.queues queue ≡ m ∷ rest
      → below st.processed count ≡ true
      → redrive_loop accepts queue clock count fuel st ≡ none
  unfolding redrive_loop redrive_one
  redrive-stuck zero count m rest st refuses here more = refl
  redrive-stuck (suc fuel) count m rest st refuses here more =
      rw (more, redrive_loop)
        (rw (here, redrive_loop)
          (rw (refuses, redrive_one)
            (redrive-stuck fuel count m rest _ refuses (rw (eq_refl queue) refl) more)))

  appended :
      (xs : List Message) (x : Message)
      → (y : Message) × (ys : List Message) × (xs ++ x ∷ [] ≡ y ∷ ys)
  appended [] x = (x, [], refl)
  appended (y ∷ ys) x = (y, ys ++ x ∷ [], refl)

  loop_circular :
      (fuel : ℕ) (m : Message) (rest : List Message) (st : Redriving)
      → ((m' : Message) → accepts m' ≡ true)
      → target_queue queue ≡ queue
      → st.queues queue ≡ m ∷ rest
      → redrive_loop accepts queue clock (infinity false) fuel st ≡ none
  unfolding redrive_loop redrive_one
  loop_circular zero m rest st taken same here = refl
  loop_circular (suc fuel) m rest st taken same here =
      let (y, ys, e) = appended rest (stamped queue (clock st.processed) m) in
      (rw (here, redrive_loop)
        (rw (taken m, redrive_one)
          (loop_circular fuel y ys _ taken same (rw same (rw (eq_refl queue) e)))))

  -- On a queue that holds a message and whose name does not change when the suffix is removed, and
  -- a broker that takes every message, the command redrive for all messages does not end with any
  -- number of rounds, since it appends to the queue what it takes from it.
  pub redrive_circular :
      (fuel : ℕ) (m : Message) (rest : List Message) (queues : Queues)
      → ((m' : Message) → accepts m' ≡ true)
      → target_queue queue ≡ queue
      → queues queue ≡ m ∷ rest
      → redrive accepts queue clock "all" fuel queues ≡ none
  unfolding redrive max_count
  redrive_circular fuel m rest queues taken same here =
      loop_circular fuel m rest (started queues) taken same here
