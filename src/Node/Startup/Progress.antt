-- ===== src/Node/Startup/Progress.antt =====
-- Steps that take known actions in a known order, until they end.
use substrate_evm_account_ma.Prelude.{
  false, ap, none, true, append-nil, append_assoc, inr, refl, subst, ◌∙◌, if◌then◌else◌, inl, some,
  sym, ◌++◌, ◌≡◌, Bool, List, Option, [], ◌∷◌, ◌⊎◌,
}
use substrate_evm_account_ma.Node.Startup.{
  ◌>>=◌, bind, done, failed, panicked, pure, act, try, expect, when, Startup, Started, Action,
}

-- A first part of the actions was taken.
pub record Began (actions log log' : List Action) : Type 0 where
  pub prefix : List Action
  pub rest : List Action
  pub parts : prefix ++ rest ≡ actions
  pub taken : log' ≡ log ++ prefix

-- A success has taken all the actions, and its result meets the condition; any other end has taken a
-- first part of them.
abbrev pub Reaches :
    {Err A : Type 0}
    → List Action
    → List Action
    → (A → Type 0)
    → Started Err A × List Action
    → Type 0
Reaches log actions P (done a, log') = (log' ≡ log ++ actions) × P a
Reaches log actions P (failed e, log') = Began actions log log'
Reaches log actions P (panicked, log') = Began actions log log'

pub record Follows {Err A : Type 0} (m : Startup Err A) (actions : List Action) (P : A → Type 0)
    : Type 0 where
  pub at : (log : List Action) → Reaches log actions P (m log)

Began-later :
    (xs : List Action) {ys : List Action} (log : List Action) {log' : List Action}
    → Began ys (log ++ xs) log'
    → Began (xs ++ ys) log log'
Began-later xs log b = record {
  prefix = xs ++ b.prefix;
  rest = b.rest;
  parts = append_assoc xs b.prefix b.rest ∙ ap (λ zs. xs ++ zs) b.parts;
  taken = b.taken ∙ append_assoc log xs b.prefix;
}

Began-sooner :
    {xs : List Action} (ys : List Action) {log log' : List Action}
    → Began xs log log'
    → Began (xs ++ ys) log log'
Began-sooner ys b = record {
  prefix = b.prefix;
  rest = b.rest ++ ys;
  parts = sym (append_assoc b.prefix b.rest ys) ∙ ap (λ zs. zs ++ ys) b.parts;
  taken = b.taken;
}

Began-none : (actions log : List Action) → Began actions log log
Began-none actions log = record {
  prefix = [];
  rest = actions;
  parts = refl;
  taken = sym (append-nil log);
}

Reaches-later :
    {Err A : Type 0} (xs ys log : List Action) (P : A → Type 0) (r : Started Err A × List Action)
    → Reaches (log ++ xs) ys P r
    → Reaches log (xs ++ ys) P r
Reaches-later xs ys log P (done a, log') h = (h.0 ∙ append_assoc log xs ys, h.1)
Reaches-later xs ys log P (failed e, log') h = Began-later xs log h
Reaches-later xs ys log P (panicked, log') h = Began-later xs log h

Reaches-bind :
    {Err A B : Type 0} (xs ys log : List Action) (P : A → Type 0) (Q : B → Type 0)
    (r : Started Err A × List Action) (k : A → Startup Err B)
    → Reaches log xs P r
    → ((a : A) → P a → Follows (k a) ys Q)
    → Reaches log (xs ++ ys) Q (bind r k)
Reaches-bind xs ys log P Q (done a, log') k h h' =
    Reaches-later xs ys log Q (k a log')
      (subst (λ start. Reaches start ys Q (k a log')) h.0 ((h' a h.1).at log'))
Reaches-bind xs ys log P Q (failed e, log') k h h' = Began-sooner ys h
Reaches-bind xs ys log P Q (panicked, log') k h h' = Began-sooner ys h

pub Follows->>= :
    {Err A B : Type 0} {m : Startup Err A} (k : A → Startup Err B) {xs ys : List Action}
    {P : A → Type 0} {Q : B → Type 0}
    → Follows m xs P
    → ((a : A) → P a → Follows (k a) ys Q)
    → Follows (m >>= k) (xs ++ ys) Q
unfolding ◌>>=◌
Follows->>= {m = m} k {xs} {ys} {P} {Q} h h' = record {
  at = λ log. Reaches-bind xs ys log P Q (m log) k (h.at log) h';
}

-- No condition on the result.
abbrev pub Any : {A : Type 0} → A → Type 0
Any a = Unit {0}

try-Reaches : {Err A : Type 0} (r : Err ⊎ A) (log : List Action) → Reaches log [] Any (try r log)
unfolding try
try-Reaches (inl e) log = Began-none [] log
try-Reaches (inr a) log = (sym (append-nil log), tt)

pub Follows-try : {Err A : Type 0} (r : Err ⊎ A) → Follows (try r) [] Any
Follows-try r = record { at = try-Reaches r }

expect-Reaches :
    (Err : Type 0) {A : Type 0} (r : Option A) (log : List Action)
    → Reaches log [] Any (expect {Err = Err} r log)
unfolding expect
expect-Reaches Err none log = Began-none [] log
expect-Reaches Err (some a) log = (sym (append-nil log), tt)

pub Follows-expect :
    (Err : Type 0) {A : Type 0} (r : Option A) → Follows {Err = Err} (expect r) [] Any
Follows-expect Err r = record { at = expect-Reaches Err r }

pub Follows-pure :
    {Err A : Type 0} (a : A) (P : A → Type 0) → P a → Follows {Err = Err} (pure a) [] P
unfolding pure
Follows-pure a P h = record { at = λ log. (sym (append-nil log), h) }

pub Follows-act : {Err : Type 0} (a : Action) → Follows {Err = Err} (act a) (a ∷ []) Any
unfolding act
Follows-act a = record { at = λ log. (refl, tt) }

pub Follows-when :
    {Err : Type 0} (b : Bool) {m : Startup Err (Unit {0})} {xs : List Action}
    → Follows m xs Any
    → Follows (when b m) (if b then xs else []) Any
unfolding when pure
Follows-when true h = record { at = λ log. h.at log }
Follows-when false h = record { at = λ log. (sym (append-nil log), tt) }
