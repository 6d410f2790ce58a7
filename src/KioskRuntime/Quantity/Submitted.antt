-- ===== src/KioskRuntime/Quantity/Submitted.antt =====
-- Lists of keys: `handle_business_key` of firmware/kiosk_runtime_v2/src/runtime/kiosk_runtime.cpp.
use mesflow_kiosk_runtime_v.Prelude.{
  ℕ, ◌≤◌, ◌<◌, ◌≡◌, refl, sym, ap, ◌∙◌, subst, Bool, true, false, not, ◌&&◌, List, [], ◌∷◌,
  if◌then◌else◌, pos, ◌==◌,
}
use mesflow_kiosk_runtime_v.EventTypes.{
  EventType, OptionalQuantity, finish_requested, quantity_submitted, cancel_requested,
}
use mesflow_kiosk_runtime_v.EventJournal.SpiffsFile.{Spiffs}
use mesflow_kiosk_runtime_v.StateProjection.{
  state_eq, quantity_input, wait_operation, session_active,
}
use mesflow_kiosk_runtime_v.KioskRuntime.{World, KioskRuntime, QuantityFlow, good, current_state}
use mesflow_kiosk_runtime_v.KioskRuntime.Send.{Quantities, send_business_event}
use mesflow_kiosk_runtime_v.KioskRuntime.Keys.{
  accepts_keys, no_quantities, after_key, submit_final_quantity, handle_business_key,
}
use mesflow_kiosk_runtime_v.KioskRuntime.Quantity.{quantity_key, summary_key}
use mesflow_kiosk_runtime_v.KioskRuntime.Quantity.Dialogue.{
  type_keys, max_quantity, IsSane, quantity_key-IsSane,
}
use mesflow_kiosk_runtime_v.KioskRuntime.Quantity.Typed.{entry, type_keys-entry}
use mesflow_kiosk_runtime_v.KioskRuntime.Quantity.Pressed.{
  Input, input_of, is_asking, is_asking_of, send_business_event-input, after_key-input, asking_key,
}

abbrev present : ℕ → OptionalQuantity
present n = record { present = true; value = pos n }

-- The quantities of a submission.
abbrev pub three_quantities : ℕ → ℕ → ℕ → Quantities
three_quantities g d r = record {
  quantity_good = present g;
  quantity_defect = present d;
  quantity_rework = present r;
}

module _ (spiffs : Spiffs) where
  unfoldable pub press_keys : World → List ℕ → KioskRuntime spiffs → KioskRuntime spiffs
  unfolding handle_business_key
  press_keys w [] k = k
  press_keys w (key ∷ keys) k = press_keys w keys (handle_business_key spiffs w key k)

  asking_key-input :
      (w : World) (key : ℕ) (k : KioskRuntime spiffs)
      → is_asking spiffs w k ≡ true
      → input_of spiffs (handle_business_key spiffs w key k)
        ≡ record (input_of spiffs k) { flow = (quantity_key key k.quantity).0 }
  asking_key-input w key k asking =
      ap (input_of spiffs) (asking_key spiffs w key k asking)
      ∙ after_key-input spiffs w (quantity_key key k.quantity).1 _

  -- Keys at a kiosk that asks for quantities move the dialogue, and it goes on asking.
  pub press_keys-input :
      (w : World) (keys : List ℕ) (k : KioskRuntime spiffs)
      → is_asking spiffs w k ≡ true
      → input_of spiffs (press_keys w keys k)
        ≡ record (input_of spiffs k) { flow = type_keys keys k.quantity }
  unfolding press_keys type_keys
  press_keys-input w [] k asking = refl
  press_keys-input w (key ∷ keys) k asking =
      let k' = handle_business_key spiffs w key k in
      let step = asking_key-input w key k asking in
      let still : is_asking spiffs w k' ≡ true = ap (is_asking_of spiffs w) step ∙ asking in
      press_keys-input w keys k' still
      ∙ ap {A = Input} (λ x. record x { flow = type_keys keys x.flow }) step

  -- The keys for a good, a defect and a repaired quantity, and '#' once more, send exactly these
  -- three quantities, for all numbers below a million of which the third is at most the second.
  pub press_keys-entry :
      (w : World) (g d r : ℕ) (k : KioskRuntime spiffs)
      → is_asking spiffs w k ≡ true
      → k.quantity.qty_step ≡ good
      → k.quantity.local_qty_buffer ≡ []
      → g < max_quantity
      → d < max_quantity
      → r ≤ d
      → handle_business_key spiffs w b'#' (press_keys w (entry g d r) k)
        ≡ send_business_event spiffs w quantity_submitted []
            (three_quantities g d r)
            (record (press_keys w (entry g d r) k) { last_activity_ms = w.millis })
  unfolding after_key submit_final_quantity quantity_key summary_key
  press_keys-entry w g d r k asking step blank g_fits d_fits r_fits =
      let k' = press_keys w (entry g d r) k in
      let moved = press_keys-input w (entry g d r) k asking in
      let typed =
        ap {A = Input} (λ x. x.flow) moved
        ∙ type_keys-entry g d r k.quantity g_fits d_fits r_fits step blank in
      asking_key spiffs w b'#' k' (ap (is_asking_of spiffs w) moved ∙ asking)
      ∙ ap {A = QuantityFlow}
          (λ q.
            after_key spiffs w (quantity_key b'#' q).1
              (record k' { last_activity_ms = w.millis; quantity = (quantity_key b'#' q).0 }))
          typed
      ∙ ap {A = QuantityFlow}
          (λ q.
            send_business_event spiffs w quantity_submitted [] (three_quantities g d r)
              (record k' { last_activity_ms = w.millis; quantity = q }))
          (sym typed)

  IsSane-branch :
      (b : Bool) (k k' : KioskRuntime spiffs)
      → IsSane k.quantity
      → IsSane k'.quantity
      → IsSane (if b then k else k').quantity
  IsSane-branch true k k' s s' = s
  IsSane-branch false k k' s s' = s'

  handle_business_key-IsSane :
      (w : World) (key : ℕ) (k : KioskRuntime spiffs)
      → IsSane k.quantity
      → IsSane (handle_business_key spiffs w key k).quantity
  unfolding handle_business_key
  handle_business_key-IsSane w key k sane =
      let k' = record k { last_activity_ms = w.millis } in
      let state = current_state spiffs k in
      let sent : (type : EventType)
          → IsSane (send_business_event spiffs w type [] no_quantities k').quantity =
        λ type.
          subst (λ x. IsSane x.flow)
            (sym (send_business_event-input spiffs w type [] no_quantities k')) sane in
      IsSane-branch (not (accepts_keys spiffs w k)) _ _ sane (
        IsSane-branch (state_eq state wait_operation && key == b'#') _ _ (sent cancel_requested) (
          IsSane-branch (state_eq state quantity_input) _ _
            (subst (λ x. IsSane x.flow)
              (sym (
                after_key-input spiffs w (quantity_key key k.quantity).1
                  (record k' { quantity = (quantity_key key k.quantity).0 })))
              (quantity_key-IsSane key k.quantity sane))
            (IsSane-branch (state_eq state session_active && key == b'#') _ _
              (sent finish_requested) sane)))

  -- Whatever is pressed in whatever state, the quantities stay below a million, and on the
  -- summary the repaired quantity is at most the defect quantity.
  pub press_keys-IsSane :
      (w : World) (keys : List ℕ) (k : KioskRuntime spiffs)
      → IsSane k.quantity
      → IsSane (press_keys w keys k).quantity
  unfolding press_keys
  press_keys-IsSane w [] k sane = sane
  press_keys-IsSane w (key ∷ keys) k sane =
      press_keys-IsSane w keys (handle_business_key spiffs w key k)
        (handle_business_key-IsSane w key k sane)
