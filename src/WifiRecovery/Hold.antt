-- ===== src/WifiRecovery/Hold.antt =====
-- How long '*' is held, and what that opens.
use mesflow_kiosk_runtime_v.Prelude.{
  ℕ, ◌+◌, ◌-◌, ◌%◌, ◌^◌, ◌≤◌, ◌<◌, ◌≡◌, refl, sym, ap, ◌∙◌, subst, dec_lt, true, false, List, [],
  ◌∷◌, arith,
}
use mesflow_kiosk_runtime_v.WifiRecovery.{
  WifiSetupPortal, WifiRecoveryController, menu_hold_ms, recovery_hold_ms, tick,
}

module _ (portal : WifiSetupPortal) where
  open portal use {active, start}

  unfoldable pub tick_all : List ℕ → WifiRecoveryController portal → WifiRecoveryController portal
  unfolding tick
  tick_all [] c = c
  tick_all (millis ∷ rest) c = tick_all rest (tick portal millis c)

  -- '*' held since `star_down_ms`, with no screen of the recovery open: a tick `held` milliseconds
  -- later, over a wrap of the clock too, opens the menu from five seconds on and starts the portal
  -- from ten seconds on, and not before.
  pub tick-held :
      (held : ℕ) (c : WifiRecoveryController portal)
      → c.star_held ≡ true
      → c.menu_active ≡ false
      → active c.portal_state ≡ false
      → c.star_down_ms < 2 ^ 32
      → held < 2 ^ 32
      → ((held < menu_hold_ms
            → ((tick portal ((c.star_down_ms + held) % 2 ^ 32) c).menu_active ≡ false)
              × ((tick portal ((c.star_down_ms + held) % 2 ^ 32) c).portal_state ≡ c.portal_state))
          × ((menu_hold_ms ≤ held
                → held < recovery_hold_ms
                → ((tick portal ((c.star_down_ms + held) % 2 ^ 32) c).menu_active ≡ true)
                  × ((tick portal ((c.star_down_ms + held) % 2 ^ 32) c).portal_state
                      ≡ c.portal_state))
              × (recovery_hold_ms ≤ held
                  → ((tick portal ((c.star_down_ms + held) % 2 ^ 32) c).menu_active ≡ false)
                    × ((tick portal ((c.star_down_ms + held) % 2 ^ 32) c).portal_state
                        ≡ start c.portal_state))))
  unfolding tick
  tick-held held c holding closed idle fits small =
      let same : (((c.star_down_ms + held) % 2 ^ 32) + (2 ^ 32 - c.star_down_ms)) % 2 ^ 32 ≡ held =
        omega arith in
      (ground (arith, same), (ground (arith, same), ground (arith, same)))

  tick-menu :
      (millis : ℕ) (c : WifiRecoveryController portal)
      → c.menu_active ≡ true
      → active c.portal_state ≡ false
      → tick portal millis c ≡ c
  unfolding tick
  tick-menu millis c opened idle = ground arith

  -- Once the menu is open, no number of ticks at any times changes anything.
  tick_all-menu :
      (times : List ℕ) (c : WifiRecoveryController portal)
      → c.menu_active ≡ true
      → active c.portal_state ≡ false
      → tick_all times c ≡ c
  unfolding tick_all
  tick_all-menu [] c opened idle = refl
  tick_all-menu (millis ∷ rest) c opened idle =
      ap (tick_all rest) (tick-menu millis c opened idle) ∙ tick_all-menu rest c opened idle

  -- The clock so many milliseconds behind each press.
  abbrev pub clock : ℕ → List ℕ → List ℕ
  clock down [] = []
  clock down (held ∷ rest) = (down + held) % 2 ^ 32 ∷ clock down rest

  -- Ticks at ascending times since the press, each less than five seconds behind the one before.
  abbrev pub IsSteady : ℕ → List ℕ → Type 0
  IsSteady before [] = Unit
  IsSteady before (held ∷ rest) =
      (before ≤ held) × (held < before + menu_hold_ms) × (held < 2 ^ 32) × IsSteady held rest

  abbrev pub last_of : ℕ → List ℕ → ℕ
  last_of before [] = before
  last_of before (held ∷ rest) = last_of held rest

  last_of-small :
      (before : ℕ) (helds : List ℕ) → IsSteady before helds → before ≤ last_of before helds
  last_of-small before [] steady = omega arith
  last_of-small before (held ∷ rest) steady =
      omega (arith, steady.0, last_of-small held rest steady.3)

  -- What a hold of '*' has led to.
  pub record IsMenuAt (held : ℕ) (before after : WifiRecoveryController portal) : Type 0 where
    pub portal_idle : after.portal_state ≡ before.portal_state
    pub menu_is_open : menu_hold_ms ≤ held → after.menu_active ≡ true
    pub menu_is_closed : held < menu_hold_ms → after.menu_active ≡ false

  -- A tick before the menu opens.
  tick-waiting :
      (held : ℕ) (c : WifiRecoveryController portal)
      → c.star_held ≡ true
      → c.menu_active ≡ false
      → active c.portal_state ≡ false
      → c.star_down_ms < 2 ^ 32
      → held < menu_hold_ms
      → ((tick portal ((c.star_down_ms + held) % 2 ^ 32) c).star_held ≡ true)
        × ((tick portal ((c.star_down_ms + held) % 2 ^ 32) c).star_down_ms ≡ c.star_down_ms)
  unfolding tick
  tick-waiting held c holding closed idle fits small =
      let same : (((c.star_down_ms + held) % 2 ^ 32) + (2 ^ 32 - c.star_down_ms)) % 2 ^ 32 ≡ held =
        omega arith in
      ground (arith, same)

  hold-waiting :
      (before : ℕ) (helds : List ℕ) (c : WifiRecoveryController portal)
      → c.star_held ≡ true
      → c.menu_active ≡ false
      → active c.portal_state ≡ false
      → c.star_down_ms < 2 ^ 32
      → before < menu_hold_ms
      → IsSteady before helds
      → IsMenuAt (last_of before helds) c (tick_all (clock c.star_down_ms helds) c)
  unfolding tick_all
  hold-waiting before [] c holding closed idle fits early steady = record {
    portal_idle = refl;
    menu_is_open = λ late. absurd (omega arith);
    menu_is_closed = λ _. closed;
  }
  hold-waiting before (held ∷ rest) c holding closed idle fits early steady =
      let (ascends, near, small, steady') = steady in
      let c' = tick portal ((c.star_down_ms + held) % 2 ^ 32) c in
      let step = tick-held held c holding closed idle fits small in
      elim (dec_lt held menu_hold_ms) [
        | yes waiting ↦
            let (closed', same) = step.0 waiting in
            let (holding', down) = tick-waiting held c holding closed idle fits waiting in
            let next =
              hold-waiting held rest c' holding' closed' (ap active same ∙ idle)
                (subst (λ n. n < 2 ^ 32) (sym down) fits) waiting steady' in
            subst (λ n. IsMenuAt (last_of held rest) c (tick_all (clock n rest) c')) down
              (record {
                portal_idle = next.portal_idle ∙ same;
                menu_is_open = next.menu_is_open;
                menu_is_closed = next.menu_is_closed;
              })
        | no late ↦
            let (opened, same) = step.1.0 (omega arith) (omega arith) in
            let stays =
              tick_all-menu (clock c.star_down_ms rest) c' opened (ap active same ∙ idle) in
            record {
              portal_idle = ap (λ d. d.portal_state) stays ∙ same;
              menu_is_open = λ _. ap (λ d. d.menu_active) stays ∙ opened;
              menu_is_closed = λ short. absurd (omega (arith, last_of-small held rest steady'));
            }
      ]

  -- When '*' is pressed with no screen of the recovery open and held on, and the loop ticks at least
  -- once in every five seconds, over a wrap of the clock too, the menu is open exactly when the last
  -- tick fell five seconds or more behind the press, and the portal has not been started, however
  -- long '*' is held.
  pub hold-IsMenuAt :
      (helds : List ℕ) (c : WifiRecoveryController portal)
      → c.star_held ≡ true
      → c.menu_active ≡ false
      → active c.portal_state ≡ false
      → c.star_down_ms < 2 ^ 32
      → IsSteady 0 helds
      → IsMenuAt (last_of 0 helds) c (tick_all (clock c.star_down_ms helds) c)
  hold-IsMenuAt helds c holding closed idle fits steady =
      hold-waiting 0 helds c holding closed idle fits (omega arith) steady
