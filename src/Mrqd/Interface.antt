-- ===== src/Mrqd/Interface.antt =====
-- mrqdlock.hpp: the functions `delegate_n`, `delegate_f` and `delegate_p` of `mrqdlock_impl`; the
-- first two hand to `delegate` what those of `qdlock_impl` do. Those named `delegate_fp` cannot be
-- instantiated, but for a function object without parameters.
use qd_library.Prelude.{ℕ, ◌≡◌, sym, Bool, true, false, some, List, ◌∷◌, if◌then◌else◌}
use qd_library.TypeTools.{Object}
use qd_library.Delegated.{known, given, value_future, void_future}
use qd_library.Delegated.{execute, call}
use qd_library.Delegated.Interface
use qd_library.Delegated.Interface.{Request, queued, direct, IsStorable, directly}

module _ {W R : Type 0} where
  abbrev pub delegate_n_template : (List Object → W → W × R) → List Object → Request W R
  delegate_n_template f ps = Interface.delegate_n_template f ps

  abbrev pub delegate_n : Object → List Object → Request W R
  delegate_n f ps = Interface.delegate_n f ps

  abbrev pub delegate_f_template :
      Bool → (List Object → W → W × R) → Object → List Object → Request W R
  delegate_f_template returns_void f result ps =
      Interface.delegate_f_template returns_void f result ps

  abbrev pub delegate_f : Bool → Object → Object → List Object → Request W R
  delegate_f returns_void f result ps = Interface.delegate_f returns_void f result ps

  -- The user's promise is handed on as the lock's own.
  abbrev pub delegate_p_template :
      Bool → (List Object → W → W × R) → Object → List Object → Request W R
  delegate_p_template returns_void f result ps = record {
    kind = if returns_void then void_future else value_future;
    callee = known f;
    promise = result;
    objects = ps;
  }

  abbrev pub delegate_p : Bool → Object → Object → List Object → Request W R
  delegate_p returns_void f result ps = record {
    kind = if returns_void then void_future else value_future;
    callee = given;
    promise = result;
    objects = f ∷ ps;
  }

module _ {W R : Type 0} (invoke : Object → List Object → W → W × R) (set_value : Object → R → W → W)
    (set_void : Object → W → W) where
  -- What becomes of the user's promise.
  abbrev pub fulfil : Bool → Object → W × R → W
  fulfil returns_void result (w, v) =
      if returns_void then set_void result w else set_value result v w

  -- Run out of the queue, if the objects fit into the buffer and, for `void`, the wrapper has an
  -- overload: `delegate_p` of `qdlock_impl` calls the function object with the user's promise and
  -- then the parameters, and leaves the promise alone; that of `mrqdlock_impl` calls it with the
  -- parameters only, and then sets the promise, to the result if there is one.
  pub delegate_p-differs :
      (f result : Object) (ps : List Object) (returns_void : Bool) (buf : List ℕ) (w : W)
      → IsStorable invoke set_value set_void (Interface.delegate_p f result ps) buf
      → IsStorable invoke set_value set_void (delegate_p returns_void f result ps) buf
      → (queued invoke set_value set_void (Interface.delegate_p f result ps) buf w
          ≡ some (invoke f (result ∷ ps) w).0)
        × (queued invoke set_value set_void (delegate_p returns_void f result ps) buf w
            ≡ some (fulfil returns_void result (invoke f ps w)))
  unfolding execute call
  delegate_p-differs f result ps true buf w q m = (
    sym (directly invoke set_value set_void (Interface.delegate_p f result ps) buf w q),
    sym (directly invoke set_value set_void (delegate_p true f result ps) buf w m),
  )
  delegate_p-differs f result ps false buf w q m = (
    sym (directly invoke set_value set_void (Interface.delegate_p f result ps) buf w q),
    sym (directly invoke set_value set_void (delegate_p false f result ps) buf w m),
  )
