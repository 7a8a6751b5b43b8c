-- ===== src/Compiler/Symbols/Refinement.antt =====
-- The table of scopes of compiler/symbols.py answers calls as an environment does.
use poodillion.Prelude.{
  ℕ, suc, ◌+◌, String, Bool, true, false, ◌≡◌, refl, ap, sym, Option, none, some, List, [], ◌∷◌,
  length, Text, if◌then◌else◌, ◌==◌, nat_eq, string_eq, Option-cases, inl, inr,
}
use mathlib.Core.Path.{fun_ext}
use poodillion.Prelude.Dict.{lookup, insert, lookup-insert, lookup-nil}
use poodillion.Compiler.Symbols.Table.{
  Symbol, Scope, owned_by, duplicate_symbol, ok, raises, define_in, lookup_scopes, SymbolTable,
  push_scope, pop_scope, define, lookup_symbol,
}
use poodillion.Compiler.Symbols.Environment.{
  Names, Environment, Call, define_call, push_call, pop_call, lookup_call, lookup_optional_call,
  lookup_local_call, depth_call, Answer, done, depth, also, required, declare, leave, answer_spec,
  settle, answered, answer, frame, frames, environment, answers, answers_spec,
}

frames-length : (scopes : List Scope) → length (frames scopes) ≡ length scopes
frames-length [] = refl
frames-length (scope ∷ scopes) = ap suc (frames-length scopes)

if_some :
    (b : Bool) (s : Symbol) (o above : Option Symbol)
    → (elim (if b then some s else o) as (λ q. Option Symbol) [ none ↦ above | some x ↦ some x ])
      ≡ (if b then some s else elim o as (λ q. Option Symbol) [ none ↦ above | some x ↦ some x ])
if_some true s o above = refl
if_some false s o above = refl

-- A new entry of a scope in what can be seen.
visible-insert :
    (n : String) (s : Symbol) (scope : Scope) (parents : List Scope) (m : String)
    → lookup_scopes m (record scope { symbols = insert n s scope.symbols }) parents
      ≡ also n s (λ k. lookup_scopes k scope parents) m
unfolding lookup_scopes
visible-insert n s scope [] m = lookup-insert m n s scope.symbols
visible-insert n s scope (parent ∷ parents) m =
    rw (lookup-insert m n s scope.symbols, lookup_scopes)
      (if_some (m == n) s (lookup m scope.symbols) (lookup_scopes m parent parents))

-- An empty scope shows what is around it.
visible-empty :
    (scope : Scope) (parents : List Scope) (id : ℕ) (name : Text) (m : String)
    → lookup_scopes m (record { id = id; name = name; symbols = [] }) (scope ∷ parents)
      ≡ lookup_scopes m scope parents
unfolding lookup_scopes
visible-empty scope parents id name m = rw (lookup-nil {V = Symbol} m, lookup_scopes) refl

abbrev outcome : SymbolTable × Answer → Environment × Answer
outcome (t, a) = (environment t, a)

-- `define` on a name that is new to its scope.
define-also :
    (s : Symbol) (t : SymbolTable)
    → environment (record t {
      current = record t.current {
        symbols = insert s.name (owned_by t.current.id s) t.current.symbols;
      };
    })
      ≡ (declare s (environment t) none).0
define-also s t =
    let owned = owned_by t.current.id s in
    let local : Names = λ n. lookup n t.current.symbols in
    let visible : Names = λ n. lookup_scopes n t.current t.outer in
    λ i. record {
      top = record {
        id = t.current.id;
        local = fun_ext (λ m. lookup-insert m s.name owned t.current.symbols) i;
        visible = fun_ext (λ m. visible-insert s.name owned t.current t.outer m) i;
      };
      below = frames t.outer;
      next = t.next;
    }

define_new :
    (s : Symbol) (t : SymbolTable)
    → lookup s.name t.current.symbols ≡ none
    → define s t
      ≡ ok (record t {
        current = record t.current {
          symbols = insert s.name (owned_by t.current.id s) t.current.symbols;
        };
      })
unfolding define define_in
define_new s t e = rw (e, define) refl

define_old :
    (s : Symbol) (t : SymbolTable) (existing : Symbol)
    → lookup s.name t.current.symbols ≡ some existing
    → define s t ≡ raises (duplicate_symbol s existing)
unfolding define define_in
define_old s t existing e = rw (e, define) refl

define-declare :
    (s : Symbol) (t : SymbolTable)
    → outcome (settle t (define s t)) ≡ declare s (environment t) (lookup s.name t.current.symbols)
define-declare s t = elim (Option-cases (lookup s.name t.current.symbols)) [
  | inl e ↦ rw (define_new s t e, e) (λ i. (define-also s t i, done))
  | inr (existing, e) ↦ rw (define_old s t existing e, e) refl
]

pop-leave :
    (current : Scope) (outer : List Scope) (counter next : ℕ)
    → (let t : SymbolTable = record {
      current = current;
      outer = outer;
      scope_counter = counter;
      next = next;
    } in
        outcome (settle t (pop_scope t)) ≡ leave (environment t) (frames outer))
unfolding pop_scope
pop-leave current [] counter next = refl
pop-leave current (scope ∷ scopes) counter next = refl

push-environment :
    (name : Option Text) (t : SymbolTable)
    → (environment (push_scope name t), done) ≡ answer_spec (push_call name) (environment t)
unfolding push_scope
push-environment name t = λ i. (
  record {
    top = record {
      id = t.next;
      local = fun_ext (λ m. lookup-nil {V = Symbol} m) i;
      visible =
          fun_ext (λ m. visible-empty t.current t.outer t.next (push_scope name t).current.name m)
            i;
    };
    below = frame t.current t.outer ∷ frames t.outer;
    next = t.next + 1;
  },
  done,
)

lookup-required :
    (n : String) (t : SymbolTable)
    → answered (lookup_symbol n t) ≡ required n (lookup_scopes n t.current t.outer)
unfolding lookup_symbol
lookup-required n t = elim (Option-cases (lookup_scopes n t.current t.outer)) [
  | inl e ↦ rw (e, lookup_symbol) refl
  | inr (s, e) ↦ rw (e, lookup_symbol) refl
]

-- One call on a table is that call on the environment that it stands for.
answer-refines : (c : Call) (t : SymbolTable) → outcome (answer c t) ≡ answer_spec c (environment t)
unfolding answer
answer-refines (define_call s) t = define-declare s t
answer-refines (push_call name) t = push-environment name t
answer-refines pop_call t = pop-leave t.current t.outer t.scope_counter t.next
answer-refines (lookup_call n) t = ap (λ (a : Answer). (environment t, a)) (lookup-required n t)
answer-refines (lookup_optional_call n) t = refl
answer-refines (lookup_local_call n) t = refl
answer-refines depth_call t = λ i. (environment t, depth (sym (frames-length t.outer) i))

-- A table of scopes answers any calls, one after the other, as the environment that it stands for: a
-- definition is visible until its scope is left and hides the same name of outer scopes meanwhile,
-- a second definition of a name in one scope, a pop of the global scope and a missing name are the
-- errors of the program, and after an error the table is as before.
pub answers-refine :
    (cs : List Call) (t : SymbolTable) → answers cs t ≡ answers_spec cs (environment t)
unfolding answers answers_spec
answers-refine [] t = refl
answers-refine (c ∷ cs) t =
    let step = answer-refines c t in
    rw (answers-refine cs (answer c t).0)
      (ap (λ (r : Environment × Answer). r.1 ∷ answers_spec cs r.0) step)
