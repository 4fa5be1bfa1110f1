-- ===== src/Actions/Checked.antt =====
-- When the steps of Actions.Steps end without a throw.
use code4rena_may.Base.{
  String, ◌≡◌, ◌∙◌, refl, ap, false, List, [], ◌∷◌, Option, none, some, Bool-cases, inl, inr,
}
use code4rena_may.BigNumber.{BigNumber}
use code4rena_may.Effects.{Action, ok, thrown-ok, continue-ok, step, for_each}
use code4rena_may.Market.{ExpectedReserveData, UserReserveData}
use code4rena_may.Actions.{Chain, Call, Receipt}
use code4rena_may.Actions.Reads.{ContractsData, defined, get_tx_cost_and_timestamp}
use code4rena_may.Actions.Equality.{Comparison, passes, assert_key, expect_equal}
use code4rena_may.Actions.Agreement.{
  AllPass, ReserveAgrees, UserAgrees, reserve-ok, ok-reserve, user-ok, ok-user,
}
use code4rena_may.Actions.Steps.{compare_both, transact_and_compare, transact_then_compare}

module _ {B : BigNumber} (C : Chain B) (checked : C.skip_integrity_check ≡ false) where
  abbrev pub Expects : Type 0
  Expects = ContractsData B.BN → B.BN → Option (ExpectedReserveData B.BN)

  abbrev pub ExpectsUser : Type 0
  ExpectsUser = ContractsData B.BN → ExpectedReserveData B.BN → B.BN → UserReserveData B.BN

  asserts-ok :
      (cs : List (String × Comparison B.BN)) (w w1 : C.World)
      → for_each (assert_key B) cs w ≡ (ok tt, w1)
      → AllPass B cs × (w ≡ w1)
  asserts-ok [] w w1 h = (tt, ap (λ p. p.1) h)
  asserts-ok ((key, c) ∷ cs) w w1 h = elim (Bool-cases (passes B c)) [
    | inl e ↦ let (rest, same) = asserts-ok cs w w1 (simp (e) at h) in ((e, rest), same)
    | inr e ↦ absurd (thrown-ok (ap (λ p. p.0) (simp (e) at h)))
  ]

  ok-asserts :
      (cs : List (String × Comparison B.BN)) (w : C.World)
      → AllPass B cs
      → for_each (assert_key B) cs w ≡ (ok tt, w)
  ok-asserts [] w h = refl
  ok-asserts ((key, c) ∷ cs) w h = simp (h.0) (ok-asserts cs w (h.1))

  expect_equal-ok :
      (cs : List (String × Comparison B.BN)) (w w1 : C.World)
      → expect_equal B C cs w ≡ (ok tt, w1)
      → AllPass B cs × (w ≡ w1)
  unfolding expect_equal
  expect_equal-ok cs w w1 h = asserts-ok cs w w1 (simp (checked) at h)

  ok-expect_equal :
      (cs : List (String × Comparison B.BN)) (w : C.World)
      → AllPass B cs
      → expect_equal B C cs w ≡ (ok tt, w)
  unfolding expect_equal
  ok-expect_equal cs w h = simp (checked) (ok-asserts cs w h)

  -- The calculations return, and the data that was read agrees with both.
  pub record Agrees (f : Expects) (g : ExpectsUser) (after : ContractsData B.BN) (time : B.BN)
      : Type 0 where
    pub expected : ExpectedReserveData B.BN
    pub expected_eq : f after time ≡ some expected
    pub reserve_agrees : ReserveAgrees B after.reserve_data expected
    pub user_agrees : UserAgrees B after.user_data (g after expected time)

  defined-ok :
      {A : Type 0} (o : Option A) (a : A) (w v : C.World)
      → defined C o w ≡ (ok a, v)
      → (o ≡ some a) × (w ≡ v)
  defined-ok none a w v h = absurd (thrown-ok (ap (λ p. p.0) h))
  defined-ok (some b) a w v h = (cc (ap (λ p. p.0) h), ap (λ p. p.1) h)

  both-ok :
      (f : Expects) (g : ExpectsUser) (after : ContractsData B.BN) (time : B.BN) (w w1 : C.World)
      → compare_both C f g after time w ≡ (ok tt, w1)
      → Agrees f g after time × (w ≡ w1)
  unfolding compare_both
  both-ok f g after time w w1 h =
      let (expected, v, found, compared) = continue-ok _ (defined C (f after time) w) tt w1 h in
      let (u, v1, first, second) = continue-ok _ (expect_equal B C _ v) tt w1 compared in
      let (reserve, same) = expect_equal-ok _ v v1 first in
      let (user, same1) = expect_equal-ok _ v1 w1 second in
      let (is_expected, kept) = defined-ok (f after time) expected w v found in
      (
        record {
          expected = expected;
          expected_eq = is_expected;
          reserve_agrees = reserve-ok B after.reserve_data expected reserve;
          user_agrees = user-ok B after.user_data (g after expected time) user;
        },
        kept ∙ same ∙ same1,
      )

  ok-both :
      (f : Expects) (g : ExpectsUser) (after : ContractsData B.BN) (time : B.BN) (w : C.World)
      → Agrees f g after time
      → compare_both C f g after time w ≡ (ok tt, w)
  unfolding compare_both
  ok-both f g after time w a = step _ (ap (λ o. defined C o w) a.expected_eq) (
      step _ (ok-expect_equal _ w (ok-reserve B after.reserve_data a.expected a.reserve_agrees))
        (ok-expect_equal _ w (ok-user B after.user_data (g after a.expected time) a.user_agrees)))

  -- The transaction is accepted, what is read after it agrees with the calculations, and the cost of
  -- the transaction is read last.
  pub record Accepted (user : C.User) (call : Call) (read : Action C.World (ContractsData B.BN))
      (f : Expects) (g : ExpectsUser) (w w1 : C.World) : Type 0 where
    pub tx : C.Tx
    pub receipt : Receipt
    pub after : ContractsData B.BN
    pub cost : B.BN
    pub time : B.BN
    pub at_sent : C.World
    pub at_mined : C.World
    pub at_read : C.World
    pub sent_eq : C.send user call w ≡ (ok tx, at_sent)
    pub mined_eq : C.wait tx at_sent ≡ (ok receipt, at_mined)
    pub read_eq : read at_mined ≡ (ok after, at_read)
    pub priced_eq : get_tx_cost_and_timestamp C receipt at_read ≡ (ok (cost, time), w1)
    pub agrees : Agrees f g after time

  pub transact_and_compare-ok :
      (user : C.User) (call : Call) (read : Action C.World (ContractsData B.BN)) (f : Expects)
      (g : ExpectsUser) (w w1 : C.World)
      → transact_and_compare C user call read (compare_both C f g) w ≡ (ok tt, w1)
      → Accepted user call read f g w w1
  unfolding transact_and_compare
  transact_and_compare-ok user call read f g w w1 h =
      let (tx, at_sent, sent, h1) = continue-ok _ (C.send user call w) tt w1 h in
      let (receipt, at_mined, mined, h2) = continue-ok _ (C.wait tx at_sent) tt w1 h1 in
      let (after, at_read, is_read, h3) = continue-ok _ (read at_mined) tt w1 h2 in
      let (info, v, priced, h4) =
        continue-ok _ (get_tx_cost_and_timestamp C receipt at_read) tt w1 h3 in
      let (agrees, same) = both-ok f g after (info.1) v w1 h4 in
      record {
        tx = tx;
        receipt = receipt;
        after = after;
        cost = info.0;
        time = info.1;
        at_sent = at_sent;
        at_mined = at_mined;
        at_read = at_read;
        sent_eq = sent;
        mined_eq = mined;
        read_eq = is_read;
        priced_eq = priced ∙ ap (λ z. (ok info, z)) same;
        agrees = agrees;
      }

  pub ok-transact_and_compare :
      (user : C.User) (call : Call) (read : Action C.World (ContractsData B.BN)) (f : Expects)
      (g : ExpectsUser) (w w1 : C.World)
      → Accepted user call read f g w w1
      → transact_and_compare C user call read (compare_both C f g) w ≡ (ok tt, w1)
  unfolding transact_and_compare
  ok-transact_and_compare user call read f g w w1 a = step _ a.sent_eq (
      step _ a.mined_eq
        (step _ a.read_eq (step _ a.priced_eq (ok-both f g a.after a.time w1 a.agrees))))

  -- The same, with the cost of the transaction read first, and something done in between.
  pub record AcceptedThen (user : C.User) (call : Call) (meanwhile : Action C.World (Unit {0}))
      (read : Action C.World (ContractsData B.BN)) (f : Expects) (g : ExpectsUser) (w w1 : C.World)
      : Type 0 where
    pub tx : C.Tx
    pub receipt : Receipt
    pub after : ContractsData B.BN
    pub cost : B.BN
    pub time : B.BN
    pub at_sent : C.World
    pub at_mined : C.World
    pub at_priced : C.World
    pub at_last : C.World
    pub sent_eq : C.send user call w ≡ (ok tx, at_sent)
    pub mined_eq : C.wait tx at_sent ≡ (ok receipt, at_mined)
    pub priced_eq : get_tx_cost_and_timestamp C receipt at_mined ≡ (ok (cost, time), at_priced)
    pub meanwhile_eq : meanwhile at_priced ≡ (ok tt, at_last)
    pub read_eq : read at_last ≡ (ok after, w1)
    pub agrees : Agrees f g after time

  pub transact_then_compare-ok :
      (user : C.User) (call : Call) (meanwhile : Action C.World (Unit {0}))
      (read : Action C.World (ContractsData B.BN)) (f : Expects) (g : ExpectsUser) (w w1 : C.World)
      → transact_then_compare C user call meanwhile read (compare_both C f g) w ≡ (ok tt, w1)
      → AcceptedThen user call meanwhile read f g w w1
  unfolding transact_then_compare
  transact_then_compare-ok user call meanwhile read f g w w1 h =
      let (tx, at_sent, sent, h1) = continue-ok _ (C.send user call w) tt w1 h in
      let (receipt, at_mined, mined, h2) = continue-ok _ (C.wait tx at_sent) tt w1 h1 in
      let (info, at_priced, priced, h3) =
        continue-ok _ (get_tx_cost_and_timestamp C receipt at_mined) tt w1 h2 in
      let (u, at_last, done, h4) = continue-ok _ (meanwhile at_priced) tt w1 h3 in
      let (after, v, is_read, h5) = continue-ok _ (read at_last) tt w1 h4 in
      let (agrees, same) = both-ok f g after (info.1) v w1 h5 in
      record {
        tx = tx;
        receipt = receipt;
        after = after;
        cost = info.0;
        time = info.1;
        at_sent = at_sent;
        at_mined = at_mined;
        at_priced = at_priced;
        at_last = at_last;
        sent_eq = sent;
        mined_eq = mined;
        priced_eq = priced;
        meanwhile_eq = done;
        read_eq = is_read ∙ ap (λ z. (ok after, z)) same;
        agrees = agrees;
      }

  pub ok-transact_then_compare :
      (user : C.User) (call : Call) (meanwhile : Action C.World (Unit {0}))
      (read : Action C.World (ContractsData B.BN)) (f : Expects) (g : ExpectsUser) (w w1 : C.World)
      → AcceptedThen user call meanwhile read f g w w1
      → transact_then_compare C user call meanwhile read (compare_both C f g) w ≡ (ok tt, w1)
  unfolding transact_then_compare
  ok-transact_then_compare user call meanwhile read f g w w1 a = step _ a.sent_eq (
      step _ a.mined_eq (
        step _ a.priced_eq
          (step _ a.meanwhile_eq (step _ a.read_eq (ok-both f g a.after a.time w1 a.agrees)))))
