-- ===== src/Actions/Tracking.antt =====
-- What a deposit or a borrowing that passes shows of the liquidity of the contracts.
use code4rena_may.Base.{
  String, true, false, ◌≡◌, ◌∙◌, sym, ap, leb, Option, none, some, ◌>>=◌ as ◌>>=o◌, Bool-cases, inl,
  inr, arith,
}
use code4rena_may.Base.Int.{ℤ, ◌+ℤ◌, ◌-ℤ◌, abs_ℕ}
use code4rena_may.BigNumber.{BigNumber, IsExact}
use code4rena_may.Effects.{ok, Action}
use code4rena_may.Market.{ReserveData, ExpectedReserveData}
use code4rena_may.Market.RateMode.{RateMode, is_stable}
use code4rena_may.Calculations.Reserve.Deposit.{calc_expected_reserve_data_after_deposit}
use code4rena_may.Calculations.Reserve.Borrow.{
  calc_expected_reserve_data_after_borrow, after_stable_borrow, after_variable_borrow,
}
use code4rena_may.Actions.{Chain, Call, Receipt}
use code4rena_may.Actions.Reads.{
  ContractsData, convert_to_currency_decimals, get_reserve_address_from_symbol, get_contracts_data,
  value_of, get_tx_cost_and_timestamp,
}
use code4rena_may.Actions.Equality.{almost_equal_or_equal}
use code4rena_may.Actions.Agreement.{IsClose, IsClose-almost}
use code4rena_may.Actions.Supply.{deposit}
use code4rena_may.Actions.Debt.{as_rate_mode, borrow, travel}
use code4rena_may.Actions.Tolerance.{almost_equal_or_equal-within}
use code4rena_may.Actions.Readings.{data-IsWhole}
use code4rena_may.Actions.Verdicts.{deposit-Accepted, borrow-Accepted}

module _ {B : BigNumber} (L : IsExact B) (C : Chain B)
    (checked : C.skip_integrity_check ≡ false) where
  none-some : {D : Type 0} {d : D} → none ≡ some d → ⊥
  none-some h = ground (arith, h)

  bind_some :
      {A D : Type 0} (o : Option A) (f : A → D) (d : D)
      → (o >>=o λ a. some (f a)) ≡ some d
      → (a : A) × (f a ≡ d)
  bind_some none f d h = absurd (none-some h)
  bind_some (some a) f d h = (a, cc h)

  -- The available liquidity after is within 3 of what `move` makes of the one before.
  pub record Near (before after : ContractsData B.BN) (move : ℤ → ℤ) : Type 0 where
    pub old : ℤ
    pub new : ℤ
    pub old_eq : before.reserve_data.available_liquidity ≡ B.of_string old
    pub new_eq : after.reserve_data.available_liquidity ≡ B.of_string new
    pub close : leb (abs_ℕ (new -ℤ move old)) 3 ≡ true

  -- The contracts accept the call in `w`; in the world that it leaves they report data that is near,
  -- and then the price of the call, which ends in `end`.
  pub record Tracks (user : C.User) (call : Call) (read : Action C.World (ContractsData B.BN))
      (before : ContractsData B.BN) (move : ℤ → ℤ) (w end : C.World) : Type 0 where
    pub tx : C.Tx
    pub receipt : Receipt
    pub priced : B.BN × B.BN
    pub after : ContractsData B.BN
    pub at_sent : C.World
    pub at_mined : C.World
    pub at_read : C.World
    pub sent_eq : C.send user call w ≡ (ok tx, at_sent)
    pub mined_eq : C.wait tx at_sent ≡ (ok receipt, at_mined)
    pub read_eq : read at_mined ≡ (ok after, at_read)
    pub priced_eq : get_tx_cost_and_timestamp C receipt at_read ≡ (ok priced, end)
    pub near : Near before after move

  -- The same, with the price first, then `meanwhile`, and the reading last.
  pub record TracksThen (user : C.User) (call : Call) (meanwhile : Action C.World (Unit {0}))
      (read : Action C.World (ContractsData B.BN)) (before : ContractsData B.BN) (move : ℤ → ℤ)
      (w end : C.World) : Type 0 where
    pub tx : C.Tx
    pub receipt : Receipt
    pub priced : B.BN × B.BN
    pub after : ContractsData B.BN
    pub at_sent : C.World
    pub at_mined : C.World
    pub at_priced : C.World
    pub at_last : C.World
    pub sent_eq : C.send user call w ≡ (ok tx, at_sent)
    pub mined_eq : C.wait tx at_sent ≡ (ok receipt, at_mined)
    pub priced_eq : get_tx_cost_and_timestamp C receipt at_mined ≡ (ok priced, at_priced)
    pub meanwhile_eq : meanwhile at_priced ≡ (ok tt, at_last)
    pub read_eq : read at_last ≡ (ok after, end)
    pub near : Near before after move

  deposit_available :
      (amount : ℤ) (before : ReserveData B.BN) (time : B.BN) (d : ExpectedReserveData B.BN)
      → calc_expected_reserve_data_after_deposit B C.reserves_params amount before time ≡ some d
      → d.available_liquidity ≡ B.plus before.available_liquidity (B.of_string amount)
  unfolding calc_expected_reserve_data_after_deposit
  deposit_available amount before time d h =
      let (a, e) = bind_some _ _ d h in ap (λ x. x.available_liquidity) (sym e)

  close_numbers :
      (old new move : ℤ) {e a : B.BN}
      → e ≡ B.of_string move
      → a ≡ B.of_string new
      → IsClose B e a
      → leb (abs_ℕ (new -ℤ move)) 3 ≡ true
  close_numbers old new move {e} {a} he ha h =
      sym (almost_equal_or_equal-within L move new)
      ∙ ap (λ x. almost_equal_or_equal B x (B.of_string new)) (sym he)
      ∙ ap (λ y. almost_equal_or_equal B e y) (sym ha)
      ∙ IsClose-almost B e a h

  -- Where bignumber.js keeps its promises at integers, the integrity checks are on, and the reserve,
  -- the amount, the data before and the value are read: in a deposit that is expected to succeed and
  -- passes, the contracts accept the deposit, and in the world that it leaves they report an
  -- available liquidity that is up by the amount, within 3, from the one before; the run ends when
  -- the price of the transaction has been read after that.
  pub deposit-Tracks :
      (symbol amount on_behalf_of : String) (send_value message : Option String) (user : C.User)
      (reserve : String) (amount1 : ℤ) (before : ContractsData B.BN) (value : Option ℤ)
      (w w1 w2 w3 w4 end : C.World)
      → get_reserve_address_from_symbol C symbol w ≡ (ok reserve, w1)
      → convert_to_currency_decimals C reserve amount w1 ≡ (ok amount1, w2)
      → get_contracts_data C reserve on_behalf_of (some (C.address user)) w2 ≡ (ok before, w3)
      → value_of C reserve send_value w3 ≡ (ok value, w4)
      → deposit C symbol amount (some user) on_behalf_of send_value "success" message w
        ≡ (ok tt, end)
      → Tracks user
          (Call.deposit reserve amount1 on_behalf_of value)
          (get_contracts_data C reserve on_behalf_of (some (C.address user)))
          before
          (λ a. a +ℤ amount1)
          w4
          end
  deposit-Tracks symbol amount on_behalf_of send_value message user reserve amount1 before value w
        w1 w2 w3 w4 end e1 e2 e3 e4 h =
      let run =
        (deposit-Accepted C checked symbol amount on_behalf_of send_value message user reserve
            amount1 before value w w1 w2 w3 w4 end e1 e2 e3 e4).0
          h in
      let readings = data-IsWhole C reserve on_behalf_of (some (C.address user)) in
      let (old, was) = readings.returns w2 w3 before e3 in
      let (new, is) = readings.returns run.at_mined run.at_read run.after run.read_eq in
      let moved =
        deposit_available amount1 before.reserve_data run.time run.agrees.expected
          run.agrees.expected_eq in
      record {
        tx = run.tx;
        receipt = run.receipt;
        priced = (run.cost, run.time);
        after = run.after;
        at_sent = run.at_sent;
        at_mined = run.at_mined;
        at_read = run.at_read;
        sent_eq = run.sent_eq;
        mined_eq = run.mined_eq;
        read_eq = run.read_eq;
        priced_eq = run.priced_eq;
        near = record {
          old = old;
          new = new;
          old_eq = was;
          new_eq = is;
          close =
              close_numbers old new (old +ℤ amount1)
                (moved ∙ ap (λ x. B.plus x (B.of_string amount1)) was ∙ L.plus_int old amount1) is
                run.agrees.reserve_agrees.available_liquidity;
        };
      }

  stable_available :
      (amount : B.BN) (before : ReserveData B.BN) (time now : B.BN) (d : ExpectedReserveData B.BN)
      → after_stable_borrow B C.reserves_params amount before time now ≡ some d
      → d.available_liquidity ≡ B.minus before.available_liquidity amount
  unfolding after_stable_borrow
  stable_available amount before time now d h =
      let (a, e) = bind_some _ _ d h in ap (λ x. x.available_liquidity) (sym e)

  variable_available :
      (amount : B.BN) (before : ReserveData B.BN) (time now : B.BN) (d : ExpectedReserveData B.BN)
      → after_variable_borrow B C.reserves_params amount before time now ≡ some d
      → d.available_liquidity ≡ B.minus before.available_liquidity amount
  unfolding after_variable_borrow
  variable_available amount before time now d h =
      let (a, e) = bind_some _ _ d h in ap (λ x. x.available_liquidity) (sym e)

  borrow_available :
      (amount : ℤ) (mode : RateMode) (before : ReserveData B.BN) (time now : B.BN)
      (d : ExpectedReserveData B.BN)
      → calc_expected_reserve_data_after_borrow B C.reserves_params amount mode before time now
        ≡ some d
      → d.available_liquidity ≡ B.minus before.available_liquidity (B.of_string amount)
  unfolding calc_expected_reserve_data_after_borrow
  borrow_available amount mode before time now d h = elim (Bool-cases (is_stable mode)) [
    | inl b ↦ stable_available (B.of_string amount) before time now d (simp (b) at h)
    | inr b ↦ variable_available (B.of_string amount) before time now d (simp (b) at h)
  ]

  -- Where bignumber.js keeps its promises at integers, the integrity checks are on, and the reserve,
  -- the data before and the amount are read: in a borrowing that is expected to succeed and passes,
  -- the contracts accept the borrowing, and in the world that it leaves once its price is read and
  -- the time of the scenario has passed, which is the end of the run, they report an available
  -- liquidity that is down by the amount, within 3, from the one before, in each rate mode.
  pub borrow-Tracks :
      (symbol amount mode on_behalf_of : String) (time_travel message : Option String)
      (user : C.User) (reserve : String) (amount1 : ℤ) (before : ContractsData B.BN)
      (w w1 w2 w3 end : C.World)
      → get_reserve_address_from_symbol C symbol w ≡ (ok reserve, w1)
      → get_contracts_data C reserve on_behalf_of (some (C.address user)) w1 ≡ (ok before, w2)
      → convert_to_currency_decimals C reserve amount w2 ≡ (ok amount1, w3)
      → borrow C symbol amount mode (some user) on_behalf_of time_travel "success" message w
        ≡ (ok tt, end)
      → TracksThen user
          (Call.borrow reserve amount1 mode on_behalf_of)
          (travel C time_travel)
          (get_contracts_data C reserve on_behalf_of (some (C.address user)))
          before
          (λ a. a -ℤ amount1)
          w3
          end
  borrow-Tracks symbol amount mode on_behalf_of time_travel message user reserve amount1 before w w1
        w2 w3 end e1 e2 e3 h =
      let run =
        (borrow-Accepted C checked symbol amount mode on_behalf_of time_travel message user reserve
            amount1 before w w1 w2 w3 end e1 e2 e3).0
          h in
      let readings = data-IsWhole C reserve on_behalf_of (some (C.address user)) in
      let (old, was) = readings.returns w1 w2 before e2 in
      let (new, is) = readings.returns run.at_last end run.after run.read_eq in
      let moved =
        borrow_available amount1 (as_rate_mode mode) before.reserve_data run.time
          run.after.timestamp run.agrees.expected run.agrees.expected_eq in
      record {
        tx = run.tx;
        receipt = run.receipt;
        priced = (run.cost, run.time);
        after = run.after;
        at_sent = run.at_sent;
        at_mined = run.at_mined;
        at_priced = run.at_priced;
        at_last = run.at_last;
        sent_eq = run.sent_eq;
        mined_eq = run.mined_eq;
        priced_eq = run.priced_eq;
        meanwhile_eq = run.meanwhile_eq;
        read_eq = run.read_eq;
        near = record {
          old = old;
          new = new;
          old_eq = was;
          new_eq = is;
          close =
              close_numbers old new (old -ℤ amount1)
                (moved ∙ ap (λ x. B.minus x (B.of_string amount1)) was ∙ L.minus_int old amount1) is
                run.agrees.reserve_agrees.available_liquidity;
        };
      }
