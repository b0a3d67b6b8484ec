-- ===== src/Admin/Users/Settling.antt =====
-- pages/Users.tsx when no one touches it: its jobs come to an end, whatever the server answers and
-- in whatever order.
use wow_vpn.Common.{
  ℕ, zero, suc, ◌+◌, String, Bool, false, true, ◌≡◌, refl, sym, ap, ◌∙◌, List, [], ◌∷◌, ◌++◌, ◌≤◌,
  arith, length,
}
use wow_vpn.Common.Number.{Number}
use wow_vpn.Admin.Users.Types.{
  State, Job, loading_clients, loading_groups, loading_templates, bulk_deleting, Answer,
}
use wow_vpn.Admin.Users.Handlers.{answer, bulk_step}
use wow_vpn.Admin.Users.World.{
  World, answered, Reach, next, after, started, saves, busy, saves-loading,
}

-- How many answers a job waits for at most, with the reload of the list at its end.
abbrev pub answers_of : Job → ℕ
answers_of loading_clients = 1
answers_of loading_groups = 1
answers_of loading_templates = 1
answers_of (bulk_deleting ids) = 2 + length ids
answers_of _ = 2

abbrev pub answers_due : List Job → ℕ
answers_due [] = 0
answers_due (j ∷ js) = answers_of j + answers_due js

answers_due-append : (xs ys : List Job) → answers_due (xs ++ ys) ≡ answers_due xs + answers_due ys
answers_due-append [] ys = omega arith
answers_due-append (x ∷ xs) ys = omega (arith, answers_due-append xs ys)

answers_of_positive : (j : Job) → 1 ≤ answers_of j
answers_of_positive j = ground arith

none_due : (jobs : List Job) → answers_due jobs ≤ 0 → jobs ≡ []
none_due [] h = refl
none_due (j ∷ jobs) h = absurd (omega (arith, answers_of_positive j, h))

idle : (b : Bool) → busy b ≡ 0 → b ≡ false
idle false h = refl
idle true h = absurd (omega (arith, h))

module _ {num : Number} where
  bulk_step-due :
      (ids : List String) (s : State num)
      → 1 + answers_due (started (bulk_step ids s).1) ≤ 2 + length ids
  unfolding bulk_step
  bulk_step-due [] s = ground arith
  bulk_step-due (id ∷ ids) s = ground arith

  answer-due :
      (j : Job) (a : Answer num) (s : State num)
      → 1 + answers_due (started (answer j a s).1) ≤ answers_of j
  unfolding answer
  answer-due (bulk_deleting ids) a s = bulk_step-due ids s
  answer-due j a s = ground arith

  -- A run of n answers, none of them failing to come, and nothing else.
  pub data Answers (w : World num) : ℕ → World num → Type 0 where
    none_yet : Answers w 0 w
    one_more :
        {n : ℕ} {v : World num}
        → Answers w n v
        → (before later : List Job) (j : Job) (a : Answer num) → v.jobs ≡ before ++ j ∷ later
        → Answers w (1 + n) (after (before ++ later) (answer j a v.state))

  answered-due :
      (jobs before later : List Job) (j : Job) (a : Answer num) (s : State num)
      → jobs ≡ before ++ j ∷ later
      → 1 + answers_due (after (before ++ later) (answer j a s)).jobs ≤ answers_due jobs
  answered-due jobs before later j a s e = omega (
    arith,
    ap answers_due e,
    answer-due j a s,
    answers_due-append before (j ∷ later),
    answers_due-append before later,
    answers_due-append (before ++ later) (started (answer j a s).1),
  )

  -- However the answers follow each other, and whatever they are: those that have come and those
  -- that are still due are together never more than the jobs under way at the start wait for.
  pub Answers-due :
      (w v : World num) (n : ℕ) → Answers w n v → n + answers_due v.jobs ≤ answers_due w.jobs
  Answers-due w v n none_yet = omega arith
  Answers-due w v n (one_more {n = m} {v = u} run before later j a e) =
      omega (arith, Answers-due w u m run, answered-due u.jobs before later j a u.state e)

  -- The oldest job under way is answered, if there is one.
  abbrev pub answer_first : (State num → Job → Answer num) → List Job → State num → World num
  answer_first reply [] s = record { state = s; jobs = [] }
  answer_first reply (j ∷ later) s = after later (answer j (reply s j) s)

  abbrev pub rounds : (State num → Job → Answer num) → ℕ → World num → World num
  rounds reply zero w = w
  rounds reply (suc n) w = rounds reply n (answer_first reply w.jobs w.state)

  answer_first-due :
      (reply : State num → Job → Answer num) (jobs : List Job) (s : State num) (n : ℕ)
      → answers_due jobs ≤ 1 + n
      → answers_due (answer_first reply jobs s).jobs ≤ n
  answer_first-due reply [] s n h = omega arith
  answer_first-due reply (j ∷ later) s n h =
      omega (arith, answered-due (j ∷ later) [] later j (reply s j) s refl, h)

  rounds-jobs :
      (reply : State num → Job → Answer num) (n : ℕ) (w : World num)
      → answers_due w.jobs ≤ n
      → (rounds reply n w).jobs ≡ []
  rounds-jobs reply zero w h = none_due w.jobs h
  rounds-jobs reply (suc n) w h =
      rounds-jobs reply n (answer_first reply w.jobs w.state)
        (answer_first-due reply w.jobs w.state n (omega (arith, h)))

  module _ (date_value : String → String) (first : State num) where
    answer_first-Reach :
        (reply : State num → Job → Answer num) (jobs : List Job) (s : State num)
        → Reach date_value first (record { state = s; jobs = jobs })
        → Reach date_value first (answer_first reply jobs s)
    answer_first-Reach reply [] s r = r
    answer_first-Reach reply (j ∷ later) s r = next r (answered [] later j (reply s j) refl)

    rounds-Reach :
        (reply : State num → Job → Answer num) (n : ℕ) (w : World num)
        → Reach date_value first w
        → Reach date_value first (rounds reply n w)
    rounds-Reach reply zero w r = r
    rounds-Reach reply (suc n) w r =
        rounds-Reach reply n (answer_first reply w.jobs w.state)
          (answer_first-Reach reply w.jobs w.state r)

    -- From any state that a page comes to that is not loading at first: if the server answers what
    -- is under way, the oldest job first, and no one clicks and no poll begins, then, whatever the
    -- answers are, nothing is under way after as many answers as are due, and the page does not
    -- show that it is loading.
    pub rounds-settle :
        (reply : State num → Job → Answer num) (w : World num)
        → first.loading ≡ false
        → Reach date_value first w
        → ((rounds reply (answers_due w.jobs) w).jobs ≡ [])
          × ((rounds reply (answers_due w.jobs) w).state.loading ≡ false)
    rounds-settle reply w e r =
        let v = rounds reply (answers_due w.jobs) w in
        let settled = rounds-jobs reply (answers_due w.jobs) w (omega arith) in
        (
          settled,
          idle v.state.loading (
              sym (saves-loading date_value first v e (rounds-Reach reply (answers_due w.jobs) w r))
              ∙ ap saves settled),
        )
