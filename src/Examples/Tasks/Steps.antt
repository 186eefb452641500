-- ===== src/Examples/Tasks/Steps.antt =====
-- What the outputs and the bodies of the four tasks are to each other, and that a poll keeps it.
use epox.Base.{
  ℕ, ◌+◌, ◌≡◌, ◌⊎◌, refl, sym, ◌∙◌, ap, subst, inl, inr, Bool, true, false, Option, none, some,
  some_eq, List, ◌∷◌, ◌==◌, arith, update, if◌then◌else◌,
}
use epox.Queue.Links.{Ptr}
use epox.Flags.{Flags}
use epox.Waker.{task, Poll}
use epox.Executor.{Executor}
use epox.Executor.Events.{Kernel}
use epox.Executor.Run.{Action, awaits, drops, act, await_output}
use epox.Executor.Fit.{is_ready}
use epox.Programs.Mild.{AreMild}
use epox.Programs.Kept.{Ensures, Ensures_mono}
use epox.Programs.View.{output_of, completed, with_output, with_completed}
use epox.Examples.Tasks.{
  Value, number, text, Stage, absent, starting, ticking, first, second, over, t1, t2, t3, t4, value,
  second_got, await_second, first_got, await_first, sum,
}

-- A task that waits for its timer and gives `v`, which may have been taken then.
abbrev pub Timed : Value → (taken : Bool) → Option Value → (completed : Bool) → Stage → Type 0
Timed v taken o d starting = (d ≡ false) × (taken ≡ false) × (o ≡ none)
Timed v taken o d ticking = (d ≡ false) × (taken ≡ false) × (o ≡ none)
Timed v taken o d over = (d ≡ true) × (o ≡ (if taken then none else some v))
Timed v taken o d _ = ⊥

-- The task that adds.
abbrev pub Summed : Option Value → (completed : Bool) → Stage → Type 0
Summed o d starting = (d ≡ false) × (o ≡ none)
Summed o d first = (d ≡ false) × (o ≡ none)
Summed o d (second a) = (d ≡ false) × (o ≡ none) × (a ≡ 20)
Summed o d over = (d ≡ true) × (o ≡ some (number 42))
Summed o d _ = ⊥

-- Whether the task that adds has taken the first output, and the second.
abbrev pub took_first : Stage → Bool
took_first (second a) = true
took_first over = true
took_first _ = false

abbrev pub took_second : Stage → Bool
took_second over = true
took_second _ = false

pub record Holds (o : Ptr → Option Value) (d : Ptr → Bool) (stage : Ptr → Stage) : Type 0 where
  pub one : Timed (number 20) (took_first (stage t3)) (o t1) (d t1) (stage t1)
  pub two : Timed (number 22) (took_second (stage t3)) (o t2) (d t2) (stage t2)
  pub three : Summed (o t3) (d t3) (stage t3)
  pub four : Timed value false (o t4) (d t4) (stage t4)

pub Holds-ext :
    (o p : Ptr → Option Value) (d c : Ptr → Bool) (stage : Ptr → Stage)
    → ((u : Ptr) → p u ≡ o u)
    → ((u : Ptr) → c u ≡ d u)
    → Holds o d stage
    → Holds p c stage
Holds-ext o p d c stage f g h = record {
  one = rw (f t1, g t1) h.one;
  two = rw (f t2, g t2) h.two;
  three = rw (f t3, g t3) h.three;
  four = rw (f t4, g t4) h.four;
}

-- A task that has not completed is still to be polled.
pub Timed-lives :
    (v : Value) (taken : Bool) (o : Option Value) (d : Bool) (st : Stage)
    → d ≡ false
    → Timed v taken o d st
    → ((st ≡ starting) ⊎ (st ≡ ticking)) × (taken ≡ false) × (o ≡ none)
Timed-lives v taken o d starting live (l, t, n) = (inl refl, t, n)
Timed-lives v taken o d ticking live (l, t, n) = (inr refl, t, n)
Timed-lives v taken o d over live (done, k) = cc
Timed-lives v taken o d absent live h = absurd h
Timed-lives v taken o d first live h = absurd h
Timed-lives v taken o d (second a) live h = absurd h

-- An output that is there and was not taken is that of a task that has ended.
Timed-some :
    (v x : Value) (o : Option Value) (d : Bool) (st : Stage)
    → o ≡ some x
    → Timed v false o d st
    → (st ≡ over) × (x ≡ v) × (d ≡ true)
Timed-some v x o d over has (done, k) = (refl, some_eq (sym has ∙ k), done)
Timed-some v x o d starting has (l, t, n) = absurd (let y : none ≡ some x = sym n ∙ has in cc)
Timed-some v x o d ticking has (l, t, n) = absurd (let y : none ≡ some x = sym n ∙ has in cc)
Timed-some v x o d absent has h = absurd h
Timed-some v x o d first has h = absurd h
Timed-some v x o d (second a) has h = absurd h

-- The outputs of the tasks that have completed and whose outputs were not taken.
pub Timed-over :
    (v : Value) (o : Option Value) (d : Bool) (st : Stage)
    → d ≡ true
    → Timed v false o d st
    → o ≡ some v
Timed-over v o d over done h = h.1
Timed-over v o d starting done h = absurd (let k = h.0 in cc)
Timed-over v o d ticking done h = absurd (let k = h.0 in cc)
Timed-over v o d absent done h = absurd h
Timed-over v o d first done h = absurd h
Timed-over v o d (second a) done h = absurd h

pub Summed-over :
    (o : Option Value) (d : Bool) (st : Stage) → d ≡ true → Summed o d st → o ≡ some (number 42)
Summed-over o d over done h = h.1
Summed-over o d starting done h = absurd (let k = h.0 in cc)
Summed-over o d first done h = absurd (let k = h.0 in cc)
Summed-over o d (second a) done h = absurd (let k = h.0 in cc)
Summed-over o d absent done h = absurd h
Summed-over o d ticking done h = absurd h

number_eq : (a b : ℕ) → number a ≡ number b → a ≡ b
number_eq a b h = cc

-- After a poll of `t`, at the end of the round.
abbrev pub After :
    {F : Type 0}
    → Ptr
    → (Ptr → Stage)
    → List (Action F)
    → Poll Value × Stage
    → Executor F Value
    → Type 0
After t stage as' r e' =
    AreMild (λ s. t == s) (is_ready r.0) as'
    × Holds (with_output t r.0 (output_of e')) (with_completed t r.0 (completed e'))
        (update stage t r.1)

module _ {F : Type 0} ⦃flags : Flags F⦄ (kernel : Kernel F) (stage : Ptr → Stage) where
  second_got-After :
      (a : ℕ) (o : Option Value) (e : Executor F Value)
      → (e.cell t2).output ≡ o
      → Holds (output_of e) (completed e) (update stage t3 (second a))
      → Ensures kernel
          (second_got a o)
          (await_output kernel o t2 (task t3) e)
          (λ as' r e'. After t3 stage (awaits t2 (task t3) ∷ as') r e')
  unfolding second_got act
  second_got-After a none e has h =
      ((refl, tt), record { one = h.one; two = h.two; three = h.three; four = h.four })
  second_got-After a (some (text s)) e has h =
      absurd (let k = Timed-some (number 22) (text s) _ _ (stage t2) has h.two in cc)
  second_got-After a (some (number b)) e has h =
      let k = Timed-some (number 22) (number b) _ _ (stage t2) has h.two in
      let adds : a + b ≡ 42 = omega (arith, h.three.2, number_eq b 22 k.1) in
      (
        (refl, (refl, tt)),
        record {
          one = h.one;
          two = subst (Timed (number 22) true none (completed e t2)) (sym k.0) (k.2, refl);
          three = (refl, ap (λ n. some (number n)) adds);
          four = h.four;
        },
      )

  await_second-After :
      (a : ℕ) (e : Executor F Value)
      → Holds (output_of e) (completed e) (update stage t3 (second a))
      → Ensures kernel (await_second a) e (After t3 stage)
  unfolding await_second act
  await_second-After a e h = second_got-After a (e.cell t2).output e refl h

  first_got-After :
      (o : Option Value) (e : Executor F Value)
      → (e.cell t1).output ≡ o
      → Holds (output_of e) (completed e) (update stage t3 first)
      → Ensures kernel
          (first_got o)
          (await_output kernel o t1 (task t3) e)
          (λ as' r e'. After t3 stage (awaits t1 (task t3) ∷ as') r e')
  unfolding first_got act
  first_got-After none e has h =
      ((refl, tt), record { one = h.one; two = h.two; three = h.three; four = h.four })
  first_got-After (some (text s)) e has h =
      absurd (let k = Timed-some (number 20) (text s) _ _ (stage t1) has h.one in cc)
  first_got-After (some (number a)) e has h =
      let k = Timed-some (number 20) (number a) _ _ (stage t1) has h.one in
      let e1 : Executor F Value =
        act kernel (drops t1) (await_output kernel (some (number a)) t1 (task t3) e) in
      Ensures_mono kernel (await_second a) e1 (After t3 stage)
        (λ as' r e'. After t3 stage (awaits t1 (task t3) ∷ drops t1 ∷ as') r e')
        (λ as' r e' i. ((refl, (refl, i.0)), i.1))
        (await_second-After a e1 (record {
          one = subst (Timed (number 20) true none (completed e t1)) (sym k.0) (k.2, refl);
          two = h.two;
          three = (h.three.0, h.three.1, number_eq a 20 k.1);
          four = h.four;
        }))

  await_first-After :
      (e : Executor F Value)
      → Holds (output_of e) (completed e) (update stage t3 first)
      → Ensures kernel await_first e (After t3 stage)
  unfolding await_first act
  await_first-After e h = first_got-After (e.cell t1).output e refl h

  -- A poll of the task that adds, which has not completed.
  pub sum-After :
      (st : Stage) (e : Executor F Value)
      → completed e t3 ≡ false
      → Holds (output_of e) (completed e) (update stage t3 st)
      → Ensures kernel (sum st) e (After t3 stage)
  unfolding sum
  sum-After starting e live h =
      await_first-After e (record { one = h.one; two = h.two; three = h.three; four = h.four })
  sum-After first e live h = await_first-After e h
  sum-After (second a) e live h = await_second-After a e h
  sum-After over e live h = absurd (let k = h.three.0 in cc)
  sum-After absent e live h = absurd h.three
  sum-After ticking e live h = absurd h.three
