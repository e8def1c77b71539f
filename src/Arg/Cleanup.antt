-- ===== src/Arg/Cleanup.antt =====
-- `bs_arg_cleanup` of arg.c, and what `bs_arg_parse` leaves behind when it fails.
use libbase.Base.{
  Bool, true, false, ◌≡◌, refl, ◌∙◌, ap, sym, subst, Option, none, some, List, [], ◌∷◌, ◌++◌,
  Bool-cases, inl, inr, ◌==◌,
}
use libbase.Memory.{
  Ptr, Outcome, ok, abort, fault, out_of_fuel, Cmd, update, update_self, and_then, pure, ◌>>=◌,
}
use libbase.Text.{Text}
use libbase.Arg.{
  Value, a_bool, an_int, a_string, a_uint32, Spec, bool_spec, enum_spec, string_spec, uint32_spec,
  Arg, Vars, Mode,
}
use libbase.Arg.Check.{check_arg}
use libbase.Arg.Names.{AreNamed, keys, check_from-AreNamed}
use libbase.Arg.Command.{
  set_all_defaults, free_string, cleanup_spec, if_named, cleanup, parse_from, allows, conclude,
  parse,
}

-- Whether a variable holds memory that was allocated for a string.
abbrev pub owns : Value → Bool
owns (a_string (some s)) = true
owns v = false

-- The variable of an argument of type string holds no memory.
abbrev pub IsFreed : Spec → Ptr → Vars → Type 0
IsFreed (string_spec d) p m = owns (m p) ≡ false
IsFreed s p m = Unit

abbrev pub AllFreed : List Arg → Vars → Type 0
AllFreed [] m = Unit
AllFreed (a ∷ args) m = IsFreed a.spec a.value_ptr m × AllFreed args m

-- No variable comes to hold memory.
abbrev Frees : Vars → Vars → Type 0
Frees m m' = (p : Ptr) → owns (m p) ≡ false → owns (m' p) ≡ false

IsFreed-Frees : (s : Spec) (p : Ptr) (m m' : Vars) → Frees m m' → IsFreed s p m → IsFreed s p m'
IsFreed-Frees (bool_spec d) p m m' f e = tt
IsFreed-Frees (enum_spec d table) p m m' f e = tt
IsFreed-Frees (string_spec d) p m m' f e = f p e
IsFreed-Frees (uint32_spec d low high) p m m' f e = tt

-- What a part of the cleanup does.
record Cleans (o : Outcome Vars (Unit {0})) (m : Vars) (P : Vars → Type 0) : Type 0 where
  after : Vars
  ends : o ≡ ok tt after
  frees : Frees m after
  done : P after

update-Frees : (m : Vars) (p : Ptr) → Frees m (update m p (a_string none))
unfolding update
update-Frees m p q e = elim (Bool-cases (q == p)) [ inl f ↦ rw f refl | inr f ↦ rw f e ]

free_string-Cleans :
    (p : Ptr) (m : Vars) (v : Value)
    → m p ≡ v
    → Cleans (free_string p v m) m (λ m'. owns (m' p) ≡ false)
free_string-Cleans p m (a_string (some s)) e = record {
  after = update m p (a_string none);
  ends = refl;
  frees = update-Frees m p;
  done = ap owns (update_self m p (a_string none));
}
free_string-Cleans p m (a_string none) e = record {
  after = m;
  ends = refl;
  frees = λ q f. f;
  done = ap owns e;
}
free_string-Cleans p m (a_bool b) e = record {
  after = m;
  ends = refl;
  frees = λ q f. f;
  done = ap owns e;
}
free_string-Cleans p m (an_int n) e = record {
  after = m;
  ends = refl;
  frees = λ q f. f;
  done = ap owns e;
}
free_string-Cleans p m (a_uint32 n) e = record {
  after = m;
  ends = refl;
  frees = λ q f. f;
  done = ap owns e;
}

cleanup_spec-Cleans : (s : Spec) (p : Ptr) (m : Vars) → Cleans (cleanup_spec s p m) m (IsFreed s p)
cleanup_spec-Cleans (string_spec d) p m =
    let c = free_string-Cleans p m (m p) refl in
    record { after = c.after; ends = c.ends; frees = c.frees; done = c.done }
cleanup_spec-Cleans (bool_spec d) p m = record {
  after = m;
  ends = refl;
  frees = λ q f. f;
  done = tt;
}
cleanup_spec-Cleans (enum_spec d table) p m = record {
  after = m;
  ends = refl;
  frees = λ q f. f;
  done = tt;
}
cleanup_spec-Cleans (uint32_spec d low high) p m = record {
  after = m;
  ends = refl;
  frees = λ q f. f;
  done = tt;
}

if_named-some :
    (o : Option Text) (n : Text) (c : Cmd Vars (Unit {0})) (m : Vars)
    → o ≡ some n
    → if_named o c m ≡ c m
if_named-some o n c m e = ap (λ x. if_named x c m) e

cleanup-Cleans :
    (args : List Arg) (names : List Text) (m : Vars)
    → AreNamed args names
    → Cleans (cleanup args m) m (AllFreed args)
unfolding cleanup
cleanup-Cleans [] names m a = record { after = m; ends = refl; frees = λ q f. f; done = tt }
cleanup-Cleans (x ∷ args) names m a =
    let c = cleanup_spec-Cleans x.spec x.value_ptr m in
    let d = cleanup-Cleans args (keys x.spec a.0.name ++ names) c.after a.1 in
    record {
      after = d.after;
      ends =
          if_named-some x.name a.0.name (cleanup_spec x.spec x.value_ptr >>= λ u. cleanup args) m
            a.0.given
          ∙ ap (λ o. and_then o (λ u. cleanup args)) c.ends
          ∙ d.ends;
      frees = λ q f. d.frees q (c.frees q f);
      done = (IsFreed-Frees x.spec x.value_ptr c.after d.after d.frees c.done, d.done);
    }

cleanup-ends :
    (args : List Arg) (m m' : Vars) (r r' : Bool × Option (List Text))
    → AreNamed args []
    → (cleanup args >>= λ u. pure r) m ≡ ok r' m'
    → AllFreed args m'
cleanup-ends args m m' r r' a e =
    let c = cleanup-Cleans args [] m a in
    let same : ok r c.after ≡ ok r' m' = sym (ap (λ o. and_then o (λ u. pure r)) c.ends) ∙ e in
    let after : c.after ≡ m' = cc same in subst (AllFreed args) after c.done

conclude-AllFreed :
    (args : List Arg) (mode : Mode) (o : Option (List Text)) (out : Option (List Text))
    (m m' : Vars)
    → AreNamed args []
    → conclude args mode o m ≡ ok (false, out) m'
    → AllFreed args m'
conclude-AllFreed args mode none out m m' a e =
    cleanup-ends args m m' (false, none) (false, out) a e
conclude-AllFreed args mode (some extra) out m m' a e = elim (Bool-cases (allows mode extra)) [
  | inl f ↦ let g = rw f at e in absurd (cc g)
  | inr f ↦ let g = rw f at e in cleanup-ends args m m' (false, some extra) (false, out) a g
]

and_then-ok :
    {A B : Type 0} (o : Outcome Vars A) (k : A → Cmd Vars B) (b : B) (t : Vars)
    → and_then o k ≡ ok b t
    → (a : A) × (s : Vars) × (k a s ≡ ok b t)
and_then-ok (ok a s) k b t e = (a, s, e)
and_then-ok abort k b t e = absurd (cc e)
and_then-ok fault k b t e = absurd (cc e)
and_then-ok out_of_fuel k b t e = absurd (cc e)

-- When `bs_arg_parse` returns false on arguments that `check_arg` accepts, no variable of an argument
-- of type string holds allocated memory any more.
pub parse-AllFreed :
    (args : List Arg) (mode : Mode) (argv : List Text) (out : Option (List Text)) (m m' : Vars)
    → check_arg args ≡ true
    → parse args mode argv m ≡ ok (false, out) m'
    → AllFreed args m'
unfolding parse check_arg
parse-AllFreed args mode argv out m m' c e =
    let g = rw c at e in
    let (u, s, f) =
      and_then-ok (set_all_defaults args m)
        (λ u. parse_from args false argv >>= λ o. conclude args mode o) (false, out) m' g in
    let (o, t, h) =
      and_then-ok (parse_from args false argv s) (λ o. conclude args mode o) (false, out) m' f in
    conclude-AllFreed args mode o out t m' (check_from-AreNamed args [] c) h
