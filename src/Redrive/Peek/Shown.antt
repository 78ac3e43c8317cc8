-- ===== src/Redrive/Peek/Shown.antt =====
-- What `peek` shows, and what it loses.
use logistics_platform.Prelude.{
  ℕ, zero, suc, ◌-◌, leb, sym, ◌∙◌, subst, String, ◌≡◌, refl, ap, inl, inr, true, false, Bool-cases,
  Option, none, some, List, [], ◌∷◌, ◌++◌, append_nil, append_assoc, length, arith,
}
use logistics_platform.Number.{Number, nat, neg, fraction, infinity, nan}
use logistics_platform.Json.{Json}
use logistics_platform.Result.{error, Result, ok, err, ◌>>=◌, map_all}
use logistics_platform.Redrive.{Message}
use logistics_platform.Redrive.Limits.{
  limit, selected, unselected, reached, after, take_none, take_one, split_at_limit,
}
use logistics_platform.Redrive.Counts.{parse_int}
use logistics_platform.Redrive.Peek.{
  DlqMessage, shown, at_least, on_delivery, deliveries, peek, parsed,
}

-- What is printed of a message, if its content is JSON.
abbrev readable : Message → Option Json → Result DlqMessage
readable m none = err (error "SyntaxError")
readable m (some content) = ok (shown m content)

abbrev pub read : (String → Option Json) → Message → Result DlqMessage
read parse m = readable m (parse m.content)

at_least-limit : (n : ℕ) (count : Number) → at_least n count ≡ reached n (limit count)
at_least-limit n (nat k) = ground arith
at_least-limit n (neg k) = ground arith
at_least-limit n (fraction true w d) = ground arith
at_least-limit n (fraction false w d) = ground arith
at_least-limit n (infinity true) = ground arith
at_least-limit n (infinity false) = ground arith
at_least-limit n nan = ground arith

module _ (parse : String → Option Json) (count : Number) where
  -- What is shown behind `acc`, for what is left of the limit.
  abbrev shown_behind : List DlqMessage → Option ℕ → List Message → Result (List DlqMessage)
  shown_behind acc left ms = map_all (read parse) (selected left ms) >>= λ xs. ok (acc ++ xs)

  length-append_one : {A : Type 0} (xs : List A) (x : A) → length (xs ++ x ∷ []) ≡ suc (length xs)
  length-append_one [] x = refl
  length-append_one (y ∷ xs) x = omega (arith, length-append_one xs x)

  -- One more message is shown before the others.
  shown_behind-one :
      (acc : List DlqMessage) (x : DlqMessage) (r : Result (List DlqMessage))
      → (r >>= λ xs. ok ((acc ++ x ∷ []) ++ xs))
        ≡ ((r >>= λ xs. ok (x ∷ xs)) >>= λ xs. ok (acc ++ xs))
  shown_behind-one acc x (ok xs) = ap ok (append_assoc acc (x ∷ []) xs)
  shown_behind-one acc x (err e) = refl

  nothing_shown : (left : Option ℕ) (acc : List DlqMessage) → ok acc ≡ shown_behind acc left []
  nothing_shown none acc = ap ok (sym (append_nil acc))
  nothing_shown (some zero) acc = ap ok (sym (append_nil acc))
  nothing_shown (some (suc k)) acc = ap ok (sym (append_nil acc))

  -- The callback shows one message, and the rest follow.
  shows_one :
      (o : Option Json) (m : Message) (left : Option ℕ) (ms : List Message) (acc : List DlqMessage)
      → ((x : DlqMessage)
          → deliveries parse count ms (acc ++ x ∷ []) ≡ shown_behind (acc ++ x ∷ []) left ms)
      → (parsed parse count m o acc >>= λ messages. deliveries parse count ms messages) ≡ (
          (readable m o >>= λ x. map_all (read parse) (selected left ms) >>= λ xs. ok (x ∷ xs))
          >>= λ xs. ok (acc ++ xs))
  shows_one none m left ms acc ih = refl
  shows_one (some content) m left ms acc ih =
      ih (shown m content)
      ∙ shown_behind-one acc (shown m content) (map_all (read parse) (selected left ms))

  deliveries-shown :
      (left : Option ℕ) (ms : List Message) (acc : List DlqMessage)
      → ((n : ℕ) → at_least n count ≡ reached n left)
      → deliveries parse count ms acc ≡ shown_behind acc (after (length acc) left) ms
  unfolding deliveries on_delivery
  deliveries-shown left [] acc h = nothing_shown (after (length acc) left) acc
  deliveries-shown none (m ∷ ms) acc h =
      rw (h (length acc)) (
        shows_one (parse m.content) m none ms acc (λ x. deliveries-shown none ms (acc ++ x ∷ []) h))
  deliveries-shown (some k) (m ∷ ms) acc h = elim (Bool-cases (leb k (length acc))) [
    | inl full ↦ rw (h (length acc)) (
        rw full (
          rw (take_none k (length acc) (m ∷ ms) full) (
            deliveries-shown (some k) ms acc h
            ∙ ap (λ shown_ms. map_all (read parse) shown_ms >>= λ xs. ok (acc ++ xs))
                (take_none k (length acc) ms full))))
    | inr room ↦ rw (h (length acc)) (
        rw room (
          rw (take_one k (length acc) m ms room) (
            shows_one (parse m.content) m (some (k - suc (length acc))) ms acc (λ x.
              subst
                (λ n.
                  deliveries parse count ms (acc ++ x ∷ [])
                  ≡ shown_behind (acc ++ x ∷ []) (some (k - n)) ms)
                (length-append_one acc x) (deliveries-shown (some k) ms (acc ++ x ∷ []) h)))))
  ]

behind_nothing : (r : Result (List DlqMessage)) → (r >>= λ xs. ok ([] ++ xs)) ≡ r
behind_nothing (ok xs) = refl
behind_nothing (err e) = refl

at_nothing : (left : Option ℕ) → after 0 left ≡ left
at_nothing none = refl
at_nothing (some k) = ap some (omega arith)

-- The command peek shows the first of the messages that are delivered, as many as its count says,
-- or fails where the content of one of these is no JSON; and the queue is left with the messages
-- that were not delivered alone, so that those delivered behind the count are gone without having
-- been shown.
pub peek-loses :
    (parse : String → Option Json) (count : String) (delivered waiting : List Message)
    → let left = limit (parse_int count) in
      (peek parse count delivered waiting
        ≡ (map_all (read parse) (selected left delivered), waiting))
      × (delivered ≡ selected left delivered ++ unselected left delivered)
unfolding peek
peek-loses parse count delivered waiting =
    let n = parse_int count in
    (
      ap (λ r. (r, waiting))
          (deliveries-shown parse n (limit n) delivered [] (λ k. at_least-limit k n)
            ∙ (ap (λ left. shown_behind parse n [] left delivered) (at_nothing (limit n))
                ∙ behind_nothing (map_all (read parse) (selected (limit n) delivered)))),
      split_at_limit (limit n) delivered,
    )
