-- ===== src/UiBundle/Tokens.antt =====
-- `resolve_ui_tokens` of firmware/kiosk_runtime_v2/src/protocol/ui_bundle.cpp.
use mesflow_kiosk_runtime_v.Prelude.{
  ℕ, zero, suc, Bool, true, false, ◌≡◌, ◌≤◌, refl, ap, ◌∙◌, arith, ◌&&◌, Option, none, some, List,
  [], ◌∷◌, ◌++◌, ◌==◌, if◌then◌else◌, bytes_eq, codes, length,
}
use mesflow_kiosk_runtime_v.ProtocolCodec.Event.{print_signed}
use mesflow_kiosk_runtime_v.StateProjection.{ViewModel}

-- The value of a token; that of an unknown name is empty.
unfoldable pub token_value : List ℕ → ViewModel → List ℕ → List ℕ
unfolding bytes_eq
token_value local_digit_buffer view token =
    if bytes_eq token (codes "employee_name")
    then (if view.has_employee_name then view.employee_name else [])
    else if bytes_eq token (codes "operation_code")
    then (if view.has_operation_code then view.operation_code else [])
    else if bytes_eq token (codes "operation_name")
    then (if view.has_operation_name then view.operation_name else [])
    else if bytes_eq token (codes "session_id")
    then (if view.has_session_id then view.session_id else [])
    else if bytes_eq token (codes "started_at")
    then (if view.has_started_at then view.started_at else [])
    else if bytes_eq token (codes "target_qty")
    then (if view.has_target_qty then print_signed view.target_qty else [])
    else if bytes_eq token (codes "produced_qty")
    then (if view.has_produced_qty then print_signed view.produced_qty else [])
    else if bytes_eq token (codes "local_digit_buffer")
    then local_digit_buffer
    else []

abbrev add_first : ℕ → Option (List ℕ × List ℕ) → Option (List ℕ × List ℕ)
add_first c none = none
add_first c (some (token, rest)) = some (c ∷ token, rest)

-- `find("}}")`: the text before the first pair of closing braces, and the text behind it.
unfoldable pub split_close : List ℕ → Option (List ℕ × List ℕ)
split_close [] = none
split_close (a ∷ []) = none
split_close (a ∷ b ∷ s) =
    let later = add_first a (split_close (b ∷ s)) in
    if a == b'}' && b == b'}' then some ([], s) else later

-- The loop, with the text from `i` on; a round takes a byte at least.
unfoldable pub resolve_from : ℕ → ViewModel → List ℕ → List ℕ → List ℕ
unfolding token_value split_close
resolve_from zero view buffer text = []
resolve_from (suc fuel) view buffer [] = []
resolve_from (suc fuel) view buffer (a ∷ []) = a ∷ []
resolve_from (suc fuel) view buffer (a ∷ b ∷ s) =
    let plain = a ∷ resolve_from fuel view buffer (b ∷ s) in
    let token : List ℕ = elim (split_close s) [
      | none ↦ a ∷ b ∷ s
      | some (token, rest) ↦ token_value buffer view token ++ resolve_from fuel view buffer rest
    ] in
    if a == b'{' && b == b'{' then token else plain

unfoldable pub resolve_ui_tokens : List ℕ → ViewModel → List ℕ → List ℕ
unfolding resolve_from
resolve_ui_tokens text_template view local_digit_buffer =
    resolve_from (length text_template) view local_digit_buffer text_template

abbrev rest_length : Option (List ℕ × List ℕ) → ℕ
rest_length none = 0
rest_length (some (token, rest)) = length rest

rest_branch :
    (b : Bool) (x y : Option (List ℕ × List ℕ)) (n : ℕ)
    → rest_length x ≤ n
    → rest_length y ≤ n
    → rest_length (if b then x else y) ≤ n
rest_branch true x y n p q = p
rest_branch false x y n p q = q

rest-add_first :
    (c : ℕ) (o : Option (List ℕ × List ℕ)) → rest_length (add_first c o) ≡ rest_length o
rest-add_first c none = refl
rest-add_first c (some _) = refl

-- What follows a token is no longer than the text that it was split from.
rest-split_close : (s : List ℕ) → rest_length (split_close s) ≤ length s
unfolding split_close
rest-split_close [] = omega arith
rest-split_close (a ∷ []) = omega arith
rest-split_close (a ∷ b ∷ s) =
    rest_branch (a == b'}' && b == b'}') (some ([], s)) (add_first a (split_close (b ∷ s)))
      (length (a ∷ b ∷ s)) (omega arith)
      (omega (arith, rest-add_first a (split_close (b ∷ s)), rest-split_close (b ∷ s)))

-- One round, with `f` for the rounds that follow.
abbrev resolve_round :
    ViewModel → List ℕ → ℕ → ℕ → List ℕ → Option (List ℕ × List ℕ) → (List ℕ → List ℕ) → List ℕ
resolve_round view buffer a b s o f =
    if a == b'{' && b == b'{'
    then (elim o [
      | none ↦ a ∷ b ∷ s
      | some (token, rest) ↦ token_value buffer view token ++ f rest
    ])
    else a ∷ f (b ∷ s)

same_round :
    (view : ViewModel) (buffer : List ℕ) (a b : ℕ) (s : List ℕ) (o : Option (List ℕ × List ℕ))
    (f g : List ℕ → List ℕ)
    → rest_length o ≤ length s
    → ((t : List ℕ) → length t ≤ suc (length s) → f t ≡ g t)
    → resolve_round view buffer a b s o f ≡ resolve_round view buffer a b s o g
same_round view buffer a b s none f g short same =
    ap (λ t. if a == b'{' && b == b'{' then a ∷ b ∷ s else a ∷ t) (same (b ∷ s) (omega arith))
same_round view buffer a b s (some (token, rest)) f g short same =
    ap (λ t. if a == b'{' && b == b'{' then token_value buffer view token ++ t else a ∷ f (b ∷ s))
      (same rest (omega arith))
    ∙ ap (λ t. if a == b'{' && b == b'{' then token_value buffer view token ++ g rest else a ∷ t)
        (same (b ∷ s) (omega arith))

-- The length of the text is fuel enough: more changes nothing.
resolve_from_enough :
    (m n : ℕ) (view : ViewModel) (buffer s : List ℕ)
    → length s ≤ m
    → length s ≤ n
    → resolve_from m view buffer s ≡ resolve_from n view buffer s
unfolding resolve_from
resolve_from_enough zero zero view buffer s p q = refl
resolve_from_enough zero (suc n) view buffer [] p q = refl
resolve_from_enough zero (suc n) view buffer (_ ∷ _) p q = elim p [ ]
resolve_from_enough (suc m) zero view buffer [] p q = refl
resolve_from_enough (suc m) zero view buffer (_ ∷ _) p q = elim q [ ]
resolve_from_enough (suc m) (suc n) view buffer [] p q = refl
resolve_from_enough (suc m) (suc n) view buffer (a ∷ []) p q = refl
resolve_from_enough (suc m) (suc n) view buffer (a ∷ b ∷ s) p q =
    same_round view buffer a b s (split_close s) (resolve_from m view buffer)
      (resolve_from n view buffer) (rest-split_close s)
      (λ t h. resolve_from_enough m n view buffer t (omega arith) (omega arith))
