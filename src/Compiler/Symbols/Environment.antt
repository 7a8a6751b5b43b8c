-- ===== src/Compiler/Symbols/Environment.antt =====
-- What the table of compiler/symbols.py promises: an environment has frames of names, those of the
-- scope itself and those that can be seen in it, and the table answers every call as it does.
use poodillion.Prelude.{
  ℕ, ◌+◌, String, Option, none, some, List, [], ◌∷◌, length, Text, if◌then◌else◌, ◌==◌, nat_eq,
  string_eq,
}
use poodillion.Prelude.Dict.{lookup}
use poodillion.Compiler.Symbols.Table.{
  Symbol, Scope, owned_by, SymbolError, duplicate_symbol, undefined_symbol, cannot_pop_global_scope,
  Result, ok, raises, lookup_scopes, SymbolTable, push_scope, pop_scope, define, lookup_optional,
  lookup_symbol, lookup_local, get_scope_depth,
}

abbrev pub Names : Type 0
Names = String → Option Symbol

pub record Frame : Type 0 where
  pub id : ℕ
  pub local : Names
  pub visible : Names

pub record Environment : Type 0 where
  pub top : Frame
  pub below : List Frame
  pub next : ℕ

pub data Call : Type 0 where
  define_call : Symbol → Call
  push_call : Option Text → Call
  pop_call : Call
  lookup_call : String → Call
  lookup_optional_call : String → Call
  lookup_local_call : String → Call
  depth_call : Call

pub data Answer : Type 0 where
  done : Answer
  found : Option Symbol → Answer
  depth : ℕ → Answer
  failed : SymbolError → Answer

-- The names `f`, and `n` for `s`.
abbrev pub also : String → Symbol → Names → Names
also n s f m = if m == n then some s else f m

abbrev pub required : String → Option Symbol → Answer
required n none = failed (undefined_symbol n)
required n (some s) = found (some s)

-- An environment with a name that is not yet in its scope, or the error.
abbrev pub declare : Symbol → Environment → Option Symbol → Environment × Answer
declare s e (some existing) = (e, failed (duplicate_symbol s existing))
declare s e none = (
  record e {
    top = record {
      id = e.top.id;
      local = also s.name (owned_by e.top.id s) e.top.local;
      visible = also s.name (owned_by e.top.id s) e.top.visible;
    };
  },
  done,
)

abbrev pub leave : Environment → List Frame → Environment × Answer
leave e [] = (e, failed cannot_pop_global_scope)
leave e (f ∷ fs) = (record { top = f; below = fs; next = e.next }, done)

-- A call on an environment.
abbrev pub answer_spec : Call → Environment → Environment × Answer
answer_spec (define_call s) e = declare s e (e.top.local s.name)
answer_spec (push_call name) e = (
  record {
    top = record { id = e.next; local = λ n. none; visible = e.top.visible };
    below = e.top ∷ e.below;
    next = e.next + 1;
  },
  done,
)
answer_spec pop_call e = leave e e.below
answer_spec (lookup_call n) e = (e, required n (e.top.visible n))
answer_spec (lookup_optional_call n) e = (e, found (e.top.visible n))
answer_spec (lookup_local_call n) e = (e, found (e.top.local n))
answer_spec depth_call e = (e, depth (length e.below))

-- After a call that raises, the table is as it was.
abbrev pub settle : SymbolTable → Result SymbolTable → SymbolTable × Answer
settle t (raises e) = (t, failed e)
settle t (ok u) = (u, done)

abbrev pub answered : Result Symbol → Answer
answered (raises e) = failed e
answered (ok s) = found (some s)

unfoldable pub answer : Call → SymbolTable → SymbolTable × Answer
unfolding define push_scope pop_scope lookup_symbol lookup_optional lookup_local get_scope_depth
answer (define_call s) t = settle t (define s t)
answer (push_call name) t = (push_scope name t, done)
answer pop_call t = settle t (pop_scope t)
answer (lookup_call n) t = (t, answered (lookup_symbol n t))
answer (lookup_optional_call n) t = (t, found (lookup_optional n t))
answer (lookup_local_call n) t = (t, found (lookup_local n t))
answer depth_call t = (t, depth (get_scope_depth t))

-- What a table stands for.
abbrev pub frame : Scope → List Scope → Frame
frame scope parents = record {
  id = scope.id;
  local = λ n. lookup n scope.symbols;
  visible = λ n. lookup_scopes n scope parents;
}

abbrev pub frames : List Scope → List Frame
frames [] = []
frames (scope ∷ scopes) = frame scope scopes ∷ frames scopes

abbrev pub environment : SymbolTable → Environment
environment t = record { top = frame t.current t.outer; below = frames t.outer; next = t.next }

-- The answers to calls one after the other.
unfoldable pub answers : List Call → SymbolTable → List Answer
answers [] t = []
answers (c ∷ cs) t = let (u, a) = answer c t in a ∷ answers cs u

unfoldable pub answers_spec : List Call → Environment → List Answer
answers_spec [] e = []
answers_spec (c ∷ cs) e = let (f, a) = answer_spec c e in a ∷ answers_spec cs f
