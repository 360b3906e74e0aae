-- ===== src/Taskq/Weigh.antt =====
-- Sums over the workers, and how often an item occurs.
use libjeffpc.Base.{ℕ, zero, suc, ◌+◌, Bool, true, false, List, [], ◌∷◌, ◌++◌, ◌≡◌, refl, arith}
use libjeffpc.Taskq.{Worker, ready, waiting, running, ran, returned, wake_all, start_threads}

abbrev pub one_if : Bool → ℕ
one_if true = 1
one_if false = 0

module _ {ℓ} {A : Type ℓ} where
  abbrev pub weigh : (Worker A → ℕ) → List (Worker A) → ℕ
  weigh f [] = 0
  weigh f (w ∷ ws) = f w + weigh f ws

  pub weigh-middle :
      (f : Worker A → ℕ) (pre : List (Worker A)) (w : Worker A) (post : List (Worker A))
      → weigh f (pre ++ w ∷ post) ≡ weigh f pre + f w + weigh f post
  weigh-middle f [] w post = omega arith
  weigh-middle f (v ∷ pre) w post = omega (arith, weigh-middle f pre w post)

  pub weigh-wake_all :
      (f : Worker A → ℕ)
      → f ready ≡ f waiting
      → (ws : List (Worker A)) → weigh f (wake_all ws) ≡ weigh f ws
  weigh-wake_all f e [] = refl
  weigh-wake_all f e (waiting ∷ ws) = omega (arith, e, weigh-wake_all f e ws)
  weigh-wake_all f e (ready ∷ ws) = omega (arith, weigh-wake_all f e ws)
  weigh-wake_all f e (running x ∷ ws) = omega (arith, weigh-wake_all f e ws)
  weigh-wake_all f e (ran ∷ ws) = omega (arith, weigh-wake_all f e ws)
  weigh-wake_all f e (returned ∷ ws) = omega (arith, weigh-wake_all f e ws)

  -- How many items of a list pass a test.
  abbrev pub count : (A → Bool) → List A → ℕ
  count p [] = 0
  count p (x ∷ xs) = one_if (p x) + count p xs

  pub count-append : (p : A → Bool) (xs ys : List A) → count p (xs ++ ys) ≡ count p xs + count p ys
  count-append p [] ys = omega arith
  count-append p (x ∷ xs) ys = omega (arith, count-append p xs ys)

  abbrev pub holds : (A → Bool) → Worker A → ℕ
  holds p (running x) = one_if (p x)
  holds p w = 0

  abbrev pub is_waiting : Worker A → ℕ
  is_waiting waiting = 1
  is_waiting w = 0

  abbrev pub is_returned : Worker A → ℕ
  is_returned returned = 1
  is_returned w = 0

  abbrev pub is_ran : Worker A → ℕ
  is_ran ran = 1
  is_ran w = 0

  -- A worker that can go on.
  abbrev pub is_busy : Worker A → ℕ
  is_busy waiting = 0
  is_busy returned = 0
  is_busy w = 1

  pub all_idle : (ws : List (Worker A)) → weigh is_waiting (wake_all ws) ≡ 0
  all_idle [] = refl
  all_idle (waiting ∷ ws) = omega (arith, all_idle ws)
  all_idle (ready ∷ ws) = omega (arith, all_idle ws)
  all_idle (running x ∷ ws) = omega (arith, all_idle ws)
  all_idle (ran ∷ ws) = omega (arith, all_idle ws)
  all_idle (returned ∷ ws) = omega (arith, all_idle ws)

  pub busy_woken :
      (ws : List (Worker A)) → weigh is_busy (wake_all ws) ≡ weigh is_busy ws + weigh is_waiting ws
  busy_woken [] = refl
  busy_woken (waiting ∷ ws) = omega (arith, busy_woken ws)
  busy_woken (ready ∷ ws) = omega (arith, busy_woken ws)
  busy_woken (running x ∷ ws) = omega (arith, busy_woken ws)
  busy_woken (ran ∷ ws) = omega (arith, busy_woken ws)
  busy_woken (returned ∷ ws) = omega (arith, busy_woken ws)

  -- The four numbers of workers, with one of them apart.
  pub sums :
      (pre : List (Worker A)) (w : Worker A) (post : List (Worker A))
      → (weigh is_waiting (pre ++ w ∷ post)
          ≡ weigh is_waiting pre + is_waiting w + weigh is_waiting post)
        × (weigh is_returned (pre ++ w ∷ post)
            ≡ weigh is_returned pre + is_returned w + weigh is_returned post)
        × (weigh is_ran (pre ++ w ∷ post) ≡ weigh is_ran pre + is_ran w + weigh is_ran post)
        × (weigh is_busy (pre ++ w ∷ post) ≡ weigh is_busy pre + is_busy w + weigh is_busy post)
  sums pre w post = (
    weigh-middle is_waiting pre w post,
    weigh-middle is_returned pre w post,
    weigh-middle is_ran pre w post,
    weigh-middle is_busy pre w post,
  )

  pub weigh-start_threads :
      (f : Worker A → ℕ) → f ready ≡ 0 → (n : ℕ) → weigh f (start_threads n) ≡ 0
  weigh-start_threads f e zero = refl
  weigh-start_threads f e (suc n) = omega (arith, e, weigh-start_threads f e n)
