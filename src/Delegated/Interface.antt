-- ===== src/Delegated/Interface.antt =====
-- qdlock.hpp: the functions `delegate_n`, `delegate_f`, `delegate_p` and `delegate_fp`, which say
-- what is delegated: as a template argument, or as a function object.
use qd_library.Prelude.{
  ℕ, ◌≡◌, refl, sym, ◌∙◌, ◌≤◌, Bool, Option, List, [], ◌∷◌, length, if◌then◌else◌,
}
use qd_library.TypeTools.{Object, types, sumsizes}
use qd_library.Delegated.{
  Callee, known, given, Kind, value_future, void_future, nofuture, forwardall, wrapper, execute,
  stored, call,
}
use qd_library.Delegated.Transparent.{HasOverload, wrapper-eq-execute}

-- What the interface hands to `delegate`; with `nofuture` the promise is not looked at.
pub record Request (W R : Type 0) : Type 0 where
  pub kind : Kind
  pub callee : Callee W R
  pub promise : Object
  pub objects : List Object

module _ {W R : Type 0} where
  abbrev pub delegate_n_template : (List Object → W → W × R) → List Object → Request W R
  delegate_n_template f ps = record {
    kind = nofuture;
    callee = known f;
    promise = [];
    objects = ps;
  }

  abbrev pub delegate_n : Object → List Object → Request W R
  delegate_n f ps = record { kind = nofuture; callee = given; promise = []; objects = f ∷ ps }

  -- The promise is the one that `create_promise` has made; the kind goes by the result's type.
  abbrev pub delegate_f_template :
      Bool → (List Object → W → W × R) → Object → List Object → Request W R
  delegate_f_template returns_void f result ps = record {
    kind = if returns_void then void_future else value_future;
    callee = known f;
    promise = result;
    objects = ps;
  }

  abbrev pub delegate_f : Bool → Object → Object → List Object → Request W R
  delegate_f returns_void f result ps = record {
    kind = if returns_void then void_future else value_future;
    callee = given;
    promise = result;
    objects = f ∷ ps;
  }

  abbrev pub delegate_p_template : (List Object → W → W × R) → Object → List Object → Request W R
  delegate_p_template f result ps = record {
    kind = nofuture;
    callee = known f;
    promise = [];
    objects = result ∷ ps;
  }

  abbrev pub delegate_p : Object → Object → List Object → Request W R
  delegate_p f result ps = record {
    kind = nofuture;
    callee = given;
    promise = [];
    objects = f ∷ result ∷ ps;
  }

  -- The promise has been made by `create_promise`; the caller gets its future.
  abbrev pub delegate_fp : Object → Object → List Object → Request W R
  delegate_fp f result ps = record {
    kind = nofuture;
    callee = given;
    promise = [];
    objects = f ∷ result ∷ ps;
  }

module _ {W R : Type 0} (invoke : Object → List Object → W → W × R) (set_value : Object → R → W → W)
    (set_void : Object → W → W) where
  -- The operation is run by the helper, out of an entry of the queue, or at once.
  abbrev pub queued : Request W R → List ℕ → W → Option W
  queued x buf w =
      wrapper invoke set_value set_void x.kind x.callee x.promise x.objects
        (forwardall buf 0 (stored x.kind x.promise x.objects)) w

  abbrev pub direct : Request W R → W → Option W
  direct x w = execute invoke set_value set_void x.kind x.callee x.promise x.objects w

  abbrev pub IsStorable : Request W R → List ℕ → Type 0
  IsStorable x buf =
      (sumsizes (types (stored x.kind x.promise x.objects)) ≤ length buf)
      × HasOverload invoke set_value set_void x.kind x.callee x.objects

  pub directly :
      (x : Request W R) (buf : List ℕ) (w : W) → IsStorable x buf → direct x w ≡ queued x buf w
  directly x buf w h = sym (
      wrapper-eq-execute invoke set_value set_void x.kind x.callee x.promise x.objects buf w h.0
        h.1)

  -- Run at once, a named function does what the function object that stands for it does.
  named :
      (kind : Kind) (f : Object) (g : List Object → W → W × R) (r : Object) (ps : List Object)
      (w : W)
      → invoke f ≡ g
      → execute invoke set_value set_void kind (known g) r ps w
        ≡ execute invoke set_value set_void kind given r (f ∷ ps) w
  unfolding execute call
  named value_future f g r ps w e = rw e refl
  named void_future f g r ps w e = rw e refl
  named nofuture f g r ps w e = rw e refl

  -- The way in which an operation gets done does not matter, nor the form in which the function
  -- is given. For a function object `f` that stands for the function `g`: `delegate_n` and
  -- `delegate_p` of `g` as a template argument, run at once, do what they do for `f` when run
  -- from the queue, and so does `delegate_f`, for a result or for `void`, each if the objects fit
  -- into the buffer and, for `void`, the wrapper has an overload; and `delegate_fp` from the queue
  -- does what `delegate_p` of `g` does at once with the promise.
  pub forms_agree :
      (f : Object) (g : List Object → W → W × R) (result : Object) (ps : List Object)
      (returns_void : Bool) (buf : List ℕ) (w : W)
      → invoke f ≡ g
      → IsStorable (delegate_n f ps) buf
      → IsStorable (delegate_f returns_void f result ps) buf
      → IsStorable (delegate_p f result ps) buf
      → (direct (delegate_n_template g ps) w ≡ queued (delegate_n f ps) buf w)
        × (direct (delegate_f_template returns_void g result ps) w
            ≡ queued (delegate_f returns_void f result ps) buf w)
        × (direct (delegate_p_template g result ps) w ≡ queued (delegate_p f result ps) buf w)
        × (direct (delegate_p_template g result ps) w ≡ queued (delegate_fp f result ps) buf w)
  forms_agree f g result ps returns_void buf w e n v p = (
    named nofuture f g [] ps w e ∙ directly (delegate_n f ps) buf w n,
    named (if returns_void then void_future else value_future) f g result ps w e
        ∙ directly (delegate_f returns_void f result ps) buf w v,
    named nofuture f g [] (result ∷ ps) w e ∙ directly (delegate_p f result ps) buf w p,
    named nofuture f g [] (result ∷ ps) w e ∙ directly (delegate_fp f result ps) buf w p,
  )
