-- ===== src/Backtesting/Engine/Cap.antt =====
-- Entries and the largest position that the sizer permits.
use text.Mathlib.TextEquality.{path_by_compare}
use q_backend.Prelude.{
  ℕ, ◌≡◌, refl, sym, ap, ◌∙◌, subst, inl, inr, ◌⊎◌, true, Bool-cases, List, [], ◌∷◌, ◌++◌, Option,
  none, some, String, same_key, select, suc, if_true, if_false, if◌then◌else◌, arith,
}
use q_backend.Prelude.Int.{◌≤ℤ◌, +ℤ_parts, -ℤ_parts}
use q_backend.Decimal.{Arith, Exact, dec, ◌⊕◌, ◌⊖◌, ◌<?◌}
use q_backend.Backtesting.Models.{Signal, Order, Trade}
use q_backend.Backtesting.Registry.{is_open, get_open_trades, register_order, register_trade}
use q_backend.Backtesting.Engine.{
  Bar, BacktestEngine, EngineState, sum_quantity, open_quantity, fitted,
}
use q_backend.Backtesting.Engine.Fills.{
  opened_trade, place, place_within_cap, execute_entry, execute_entries,
}

same_key-eq : (s t : String) → same_key s t ≡ true → s ≡ t
same_key-eq s t h = path_by_compare s t (ground arith)

module _ {D : Type 0} ⦃a : Arith D⦄ where
  open_sum : D → String → List (Trade D) → D
  open_sum total symbol ts =
      sum_quantity total (select (λ t. same_key t.symbol symbol) (select is_open ts))

  open_sum-append :
      (total : D) (symbol : String) (ts : List (Trade D)) (t : Trade D)
      → is_open t ≡ true
      → open_sum total symbol (ts ++ t ∷ []) ≡ (
          if same_key t.symbol symbol
          then open_sum total symbol ts ⊕ t.quantity
          else open_sum total symbol ts)
  unfolding open_sum
  open_sum-append total symbol [] t h = ground (arith, h)
  open_sum-append total symbol (u ∷ us) t h = ground (
    arith,
    open_sum-append total symbol us t h,
    open_sum-append (total ⊕ u.quantity) symbol us t h,
  )

  fitted-symbol :
      (most : Option D) (held : D) (order fit : Order D)
      → fitted most held order ≡ some fit
      → fit.symbol ≡ order.symbol
  unfolding fitted
  fitted-symbol none held order fit h = ground arith
  fitted-symbol (some most) held order fit h = ground arith

  fitted-le :
      (x : Exact a) (most held : D) (order fit : Order D)
      → fitted (some most) held order ≡ some fit
      → x.value (held ⊕ fit.quantity) ≤ℤ x.value most
  unfolding fitted
  fitted-le x most held order fit h =
      let room = most ⊖ held in
      elim (Bool-cases (room <? order.quantity)) [
        | inl large ↦
            let same : fit.quantity ≡ room = ground arith in
            rw same (
              ground (
                arith,
                x.value-add held room,
                x.value-sub most held,
                +ℤ_parts (x.value held) (x.value room),
                -ℤ_parts (x.value most) (x.value held),
              ))
        | inr small ↦
            let same : fit.quantity ≡ order.quantity = ground arith in
            rw same (
              ground (
                arith,
                small,
                x.lt-value room order.quantity,
                x.value-add held order.quantity,
                x.value-sub most held,
                +ℤ_parts (x.value held) (x.value order.quantity),
                -ℤ_parts (x.value most) (x.value held),
              ))
      ]

module _ {D S : Type 0} ⦃a : Arith D⦄ (x : Exact a) (e : BacktestEngine D S) where
  -- What an entry makes of the open quantity of a symbol: nothing, or at most the cap.
  pub IsCapped : String → D → EngineState D S → EngineState D S → Type 0
  IsCapped symbol most s s' =
      (open_quantity symbol s'.registry ≡ open_quantity symbol s.registry)
      ⊎ (x.value (open_quantity symbol s'.registry) ≤ℤ x.value most)

  place-IsCapped :
      (time : ℕ) (price most : D) (symbol : String) (order fit : Order D) (s : EngineState D S)
      → fitted (some most) (open_quantity order.symbol s.registry) order ≡ some fit
      → IsCapped symbol most s (place e time price (some fit) s)
  unfolding IsCapped open_quantity get_open_trades register_trade register_order open_sum
  place-IsCapped time price most symbol order fit s h =
      let t = opened_trade e time price (suc s.next_id) fit in
      let more = open_sum-append (dec 0) symbol s.registry.trades t refl in
      elim (Bool-cases (same_key fit.symbol symbol)) [
        | inr other ↦ inl (more ∙ if_false (same_key fit.symbol symbol) _ _ other)
        | inl same ↦
            let key : order.symbol ≡ symbol =
              sym (fitted-symbol (some most) (open_quantity order.symbol s.registry) order fit h)
              ∙ same_key-eq fit.symbol symbol same in
            inr (
              subst (λ q. x.value q ≤ℤ x.value most)
                (sym (more ∙ if_true (same_key fit.symbol symbol) _ _ same))
                (fitted-le x most (open_quantity symbol s.registry) order fit (
                  subst (λ k. fitted (some most) (open_quantity k s.registry) order ≡ some fit) key
                    h)))
      ]

  IsCapped-trans :
      (symbol : String) (most : D) (s t u : EngineState D S)
      → IsCapped symbol most s t
      → IsCapped symbol most t u
      → IsCapped symbol most s u
  unfolding IsCapped
  IsCapped-trans symbol most s t u h (inr capped) = inr capped
  IsCapped-trans symbol most s t u (inl same) (inl again) = inl (again ∙ same)
  IsCapped-trans symbol most s t u (inr capped) (inl again) =
      inr (subst (λ q. x.value q ≤ℤ x.value most) (sym again) capped)

  -- By cases of the order that is left of one.
  fit-IsCapped :
      (time : ℕ) (price most : D) (symbol : String) (order : Order D) (s : EngineState D S)
      (fit : Option (Order D))
      → fitted (some most) (open_quantity order.symbol s.registry) order ≡ fit
      → IsCapped symbol most s (place e time price fit s)
        × ((place e time price fit s).current_capital ≡ s.current_capital)
  unfolding IsCapped
  fit-IsCapped time price most symbol order s none h = (inl refl, refl)
  fit-IsCapped time price most symbol order s (some fit) h =
      (place-IsCapped time price most symbol order fit s h, refl)

  place_within_cap-IsCapped :
      (time : ℕ) (price most : D) (symbol : String) (order : Option (Order D)) (s : EngineState D S)
      → e.sizer.max_position_size price s.current_capital ≡ some most
      → IsCapped symbol most s (place_within_cap e time price order s)
        × ((place_within_cap e time price order s).current_capital ≡ s.current_capital)
  unfolding IsCapped
  place_within_cap-IsCapped time price most symbol none s h = (inl refl, refl)
  place_within_cap-IsCapped time price most symbol (some order) s h =
      let held = open_quantity order.symbol s.registry in
      subst
        (λ m.
          IsCapped symbol most s (place e time price (fitted m held order) s)
          × ((place e time price (fitted m held order) s).current_capital ≡ s.current_capital))
        (sym h) (fit-IsCapped time price most symbol order s (fitted (some most) held order) refl)

  -- Whatever entries are filled on a bar, the open quantity of every symbol stays as it was or is at
  -- most the largest position that the sizer permits at the price and capital of the bar, where there
  -- is one and sums and comparisons are exact.
  pub execute_entries-IsCapped :
      (bar : Bar D) (price most : D) (symbol : String) (sigs : List (Signal D))
      (s : EngineState D S)
      → e.sizer.max_position_size price s.current_capital ≡ some most
      → IsCapped symbol most s (execute_entries e bar price sigs s)
  unfolding execute_entries execute_entry IsCapped
  execute_entries-IsCapped bar price most symbol [] s h = inl refl
  execute_entries-IsCapped bar price most symbol (sig ∷ sigs) s h =
      let next = execute_entry e bar price sig s in
      let order =
        e.sizer.size_signal s.next_id sig price s.current_capital (bar.column "volatility") in
      let (capped, same) = place_within_cap-IsCapped bar.timestamp price most symbol order s h in
      IsCapped-trans symbol most s next (execute_entries e bar price sigs next) capped (
        execute_entries-IsCapped bar price most symbol sigs next
          (ap (λ c. e.sizer.max_position_size price c) same ∙ h))
