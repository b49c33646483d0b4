-- ===== src/Download/Attempts/Complete.antt =====
-- The successful ends of `download_one` in src/download.rs.
use kernel_pop.Prelude.{
  ℕ, zero, suc, ◌+◌, ◌%◌, ◌^◌, ◌<◌, false, Option, none, some, [], ◌∷◌, ◌++◌, List, length,
  length-append, append_assoc, append-nil, ◌≡◌, refl, arith, ◌∙◌, sym, ap, Bool-cases, ◌⊎◌, inl,
  inr,
}
use mathlib.Core.Path.{subst}
use kernel_pop.Download.Attempts.{
  Event, received, write_failed, broken, Arrival, Response, Answer, response, Attempt, LastError,
  Ended, StreamEnd, read_stream, check_length, Step, ended, again, after_check, after_stream,
  answer_step, attempt_step, tries, download_one,
}

-- the bytes of a stream that was read and written to its end, with no cancel
pub data Whole : List Arrival → List ℕ → Type 0 where
  over : Whole [] []
  next :
      (a : Arrival) (as_ : List Arrival) (bytes rest : List ℕ)
      → a.cancelled ≡ false
      → a.event ≡ received bytes
      → Whole as_ rest
      → Whole (a ∷ as_) (bytes ++ rest)

-- what the server sent in an attempt that counts
pub record IsWhole (a : Attempt) (file : List ℕ) : Type 0 where
  pub reply : Response
  pub answered : a.answer ≡ response reply
  pub wanted : a.cancelled ≡ false
  pub whole : Whole reply.arrivals file
  pub counted : (expected : ℕ) → reply.total ≡ some expected → length file % 2 ^ 64 ≡ expected

event-cases :
    (e : Event)
    → ((bytes : List ℕ) × (e ≡ received bytes))
      ⊎ ((bytes : List ℕ) × (e ≡ write_failed bytes))
      ⊎ (e ≡ broken)
event-cases (received bytes) = inl (bytes, refl)
event-cases (write_failed bytes) = inr (inl (bytes, refl))
event-cases broken = inr (inr refl)

read_stream-done :
    (as_ : List Arrival) (file : List ℕ) (n : ℕ) {end : ℕ} {final : List ℕ}
    → n ≡ length file % 2 ^ 64
    → read_stream as_ file n ≡ (StreamEnd.done end, final)
    → (rest : List ℕ) × (final ≡ file ++ rest) × Whole as_ rest × (end ≡ length final % 2 ^ 64)
unfolding read_stream
read_stream-done [] file n {end} {final} c h =
    let same : file ≡ final = ap (λ p. p.1) h in
    ([], sym same ∙ sym (append-nil file), over, ground arith)
read_stream-done (a ∷ as_) file n {end} {final} c h = elim (Bool-cases a.cancelled) [
  | inl stop ↦ ground (arith, stop)
  | inr wanted ↦ elim (event-cases a.event) [
    | inl (bytes, e) ↦
        let go : read_stream as_ (file ++ bytes) ((n + length bytes) % 2 ^ 64)
            ≡ (StreamEnd.done end, final) =
          ground (arith, e, wanted) in
        let (rest, same, whole, count) =
          read_stream-done as_ (file ++ bytes) ((n + length bytes) % 2 ^ 64)
            (omega (arith, c, length-append file bytes)) go in
        (
          bytes ++ rest,
          same ∙ append_assoc file bytes rest,
          next a as_ bytes rest wanted e whole,
          count,
        )
    | inr (inl (bytes, e)) ↦ ground (arith, e, wanted)
    | inr (inr e) ↦ ground (arith, e, wanted)
  ]
]

after_check-complete :
    (r : Response) (file : List ℕ) (check : Option LastError) {now : Option (List ℕ)}
    → after_check r file check ≡ (ended Ended.complete, now)
    → (check ≡ none) × (now ≡ some file)
after_check-complete r file (some e) h = ground arith
after_check-complete r file none h = (refl, ground arith)

after_stream-complete :
    (r : Response) (s : StreamEnd × List ℕ) {now : Option (List ℕ)}
    → after_stream r s ≡ (ended Ended.complete, now)
    → (n : ℕ) × (file : List ℕ) × (s ≡ (StreamEnd.done n, file))
      × (check_length r.total n ≡ none)
      × (now ≡ some file)
after_stream-complete r (StreamEnd.done n, file) h =
    let (checked, same) = after_check-complete r file (check_length r.total n) h in
    (n, file, refl, checked, same)
after_stream-complete r (StreamEnd.cancelled, file) h = ground arith
after_stream-complete r (StreamEnd.failed e, file) h = ground arith

check_length-none :
    (total : Option ℕ) (n : ℕ)
    → check_length total n ≡ none
    → (expected : ℕ) → total ≡ some expected
    → n ≡ expected
unfolding check_length
check_length-none none n h expected e = ground arith
check_length-none (some m) n h expected e = ground arith

response-complete :
    (reply : Response) (a : Attempt) (part : Option (List ℕ)) {now : Option (List ℕ)}
    → a.answer ≡ response reply
    → a.cancelled ≡ false
    → answer_step (response reply) part ≡ (ended Ended.complete, now)
    → (file : List ℕ) × (now ≡ some file) × IsWhole a file
unfolding answer_step
response-complete reply a part {now} is_reply wanted h =
    let h' : after_stream reply (read_stream reply.arrivals [] 0) ≡ (ended Ended.complete, now) =
      ground arith in
    let (n, file, read, checked, same) =
      after_stream-complete reply (read_stream reply.arrivals [] 0) h' in
    let (rest, is_rest, whole, count) = read_stream-done reply.arrivals [] 0 refl read in
    (
      file,
      same,
      record {
        reply = reply;
        answered = is_reply;
        wanted = wanted;
        whole = subst (Whole reply.arrivals) (sym is_rest) whole;
        counted = λ expected e. sym count ∙ check_length-none reply.total n checked expected e;
      },
    )

answer-cases :
    (x : Answer)
    → ((r : Response) × (x ≡ response r)) ⊎ ((x ≡ Answer.no_answer) ⊎ (x ≡ Answer.http_error))
answer-cases (response r) = inl (r, refl)
answer-cases Answer.no_answer = inr (inl refl)
answer-cases Answer.http_error = inr (inr refl)

attempt_step-complete :
    (a : Attempt) (part : Option (List ℕ)) {now : Option (List ℕ)}
    → attempt_step a part ≡ (ended Ended.complete, now)
    → (file : List ℕ) × (now ≡ some file) × IsWhole a file
unfolding attempt_step answer_step
attempt_step-complete a part {now} h = elim (Bool-cases a.cancelled) [
  | inl stop ↦ ground (arith, stop)
  | inr wanted ↦ elim (answer-cases a.answer) [
    | inl (r, e) ↦
        response-complete r a part e wanted
          (subst (λ x. answer_step x part ≡ (ended Ended.complete, now)) e (ground (arith, wanted)))
    | inr (inl e) ↦ ground (arith, e, wanted)
    | inr (inr e) ↦ ground (arith, e, wanted)
  ]
]

step-cases : (s : Step) → ((e : Ended) × (s ≡ ended e)) ⊎ ((e : LastError) × (s ≡ again e))
step-cases (ended e) = inl (e, refl)
step-cases (again e) = inr (e, refl)

pair-eq {ℓ κ} :
    {A : Type ℓ} {B : Type κ} {p : A × B} {a : A} {b : B} → p.0 ≡ a → p.1 ≡ b → p ≡ (a, b)
pair-eq {p = (x, y)} e f = ground arith

tries-complete :
    (attempts : ℕ → Attempt) (left i : ℕ) (e : LastError) (part : Option (List ℕ))
    {now : Option (List ℕ)}
    → tries attempts left i e part ≡ (Ended.complete, now)
    → (j : ℕ) × (file : List ℕ) × (j < i + left) × (now ≡ some file) × IsWhole (attempts j) file
unfolding tries
tries-complete attempts zero i e part h = ground arith
tries-complete attempts (suc left) i e part {now} h =
    let made = attempt_step (attempts i) part in
    elim (step-cases made.0) [
      | inl (x, is) ↦
          let came : (made.0 ≡ ended Ended.complete) × (made.1 ≡ now) = ground (arith, is) in
          let (file, same, whole) =
            attempt_step-complete (attempts i) part (pair-eq came.0 came.1) in
          (i, file, omega arith, same, whole)
      | inr (x, is) ↦
          let on : tries attempts left (i + 1) x made.1 ≡ (Ended.complete, now) =
            ground (arith, is) in
          let (j, file, below, same, whole) = tries-complete attempts left (i + 1) x made.1 on in
          (j, file, omega arith, same, whole)
    ]

-- A download that ends well leaves at the path exactly the bytes that the server sent in one of the
-- three attempts: all of them, with no cancel and no error before the end, and as many (modulo 2^64)
-- as the server had announced, if it had.
pub download_one-complete :
    (attempts : ℕ → Attempt) (part : Option (List ℕ)) {now : Option (List ℕ)}
    → download_one attempts part ≡ (Ended.complete, now)
    → (j : ℕ) × (file : List ℕ) × (j < 3) × (now ≡ some file) × IsWhole (attempts j) file
unfolding download_one
download_one-complete attempts part h = tries-complete attempts 3 0 LastError.unknown part h
