-- ===== src/Delegated/Tests.antt =====
-- qdlock_base.hpp: an addition of two delegated objects.
use qd_library.Prelude.{ℕ, false, ◌+◌, ◌≤◌, ◌≡◌, refl, some, List, [], ◌∷◌, length, arith}
use qd_library.TypeTools.{Object, types, sumsizes}
use qd_library.Delegated.{known, value_future, forwardall, wrapper, execute, stored, call}
use qd_library.Delegated.Transparent.{wrapper-eq-execute}
use qd_library.Delegated.Interface.{
  delegate_n_template, delegate_n, delegate_f_template, delegate_f, delegate_p_template, delegate_p,
  delegate_fp, queued, direct, IsStorable, forms_agree,
}

abbrev pub first_byte : Object → ℕ
first_byte [] = 0
first_byte (b ∷ bs) = b

-- The state is the list of the results that have been set.
abbrev pub add : List Object → List ℕ → List ℕ × ℕ
add (a ∷ b ∷ []) w = (w, first_byte a + first_byte b)
add ps w = (w, 0)

abbrev pub invoke : Object → List Object → List ℕ → List ℕ × ℕ
invoke f ps w = add ps w

abbrev pub set_value : Object → ℕ → List ℕ → List ℕ
set_value r v w = v ∷ w

abbrev pub set_void : Object → List ℕ → List ℕ
set_void r w = w

abbrev pub operands : List Object
operands = (3 ∷ 0 ∷ []) ∷ (4 ∷ 0 ∷ []) ∷ []

abbrev buffer : List ℕ
buffer = 9 ∷ 9 ∷ 9 ∷ 9 ∷ 9 ∷ 9 ∷ []

fits : sumsizes (types (stored value_future (1 ∷ []) operands)) ≤ length buffer
fits = omega arith

seven :
    execute invoke set_value set_void value_future (known add) (1 ∷ []) operands [] ≡ some (7 ∷ [])
unfolding execute call
seven = refl

wrapper-eq-execute_example :
    wrapper invoke set_value set_void value_future
      (known add)
      (1 ∷ [])
      operands
      (forwardall buffer 0 (stored value_future (1 ∷ []) operands))
      []
    ≡ execute invoke set_value set_void value_future (known add) (1 ∷ []) operands []
wrapper-eq-execute_example =
    wrapper-eq-execute invoke set_value set_void value_future (known add) (1 ∷ []) operands buffer
      [] fits tt

abbrev pub long_buffer : List ℕ
long_buffer = 9 ∷ 9 ∷ 9 ∷ 9 ∷ 9 ∷ 9 ∷ 9 ∷ 9 ∷ []

n-IsStorable : IsStorable invoke set_value set_void (delegate_n (5 ∷ []) operands) long_buffer
n-IsStorable = (omega arith, tt)

f-IsStorable :
    IsStorable invoke set_value set_void (delegate_f false (5 ∷ []) (1 ∷ []) operands) long_buffer
f-IsStorable = (omega arith, tt)

p-IsStorable :
    IsStorable invoke set_value set_void (delegate_p (5 ∷ []) (1 ∷ []) operands) long_buffer
p-IsStorable = (omega arith, tt)

forms_agree_example :
    (direct invoke set_value set_void (delegate_n_template add operands) []
      ≡ queued invoke set_value set_void (delegate_n (5 ∷ []) operands) long_buffer [])
    × (direct invoke set_value set_void (delegate_f_template false add (1 ∷ []) operands) []
        ≡ queued invoke set_value set_void
            (delegate_f false (5 ∷ []) (1 ∷ []) operands)
            long_buffer
            [])
    × (direct invoke set_value set_void (delegate_p_template add (1 ∷ []) operands) []
        ≡ queued invoke set_value set_void (delegate_p (5 ∷ []) (1 ∷ []) operands) long_buffer [])
    × (direct invoke set_value set_void (delegate_p_template add (1 ∷ []) operands) []
        ≡ queued invoke set_value set_void (delegate_fp (5 ∷ []) (1 ∷ []) operands) long_buffer [])
forms_agree_example =
    forms_agree invoke set_value set_void (5 ∷ []) add (1 ∷ []) operands false long_buffer [] refl
      n-IsStorable f-IsStorable p-IsStorable
