-- ===== src/Naming/Kept.antt =====
-- What every handler keeps, whatever the network does: a relation between the states before and
-- after, for handlers that return and for those that wait for ever.
pub mod Create
pub mod Open
pub mod Delete
pub mod Copy
pub mod CopyDir
pub mod Mirror
pub mod Rounds
pub mod Primitives
use network_file_system_in_c.Base.{Bool, false, if◌then◌else◌, true}
use network_file_system_in_c.Naming.State.{
  M, Outcome, Server, and_then, done, pure, stuck, undefined, ◌>>=◌,
}

-- A relation that a handler that does nothing keeps, and that two handlers keep together.
pub record IsOrder (R : Server → Server → Type 0) : Type 0 where
  pub same : (s : Server) → R s s
  pub chain : {s t u : Server} → R s t → R t u → R s u

module _ (R : Server → Server → Type 0) where
  -- Nothing is said of a handler that has hit undefined behaviour.
  abbrev pub Ends : {A : Type 0} → Server → Outcome A → Type 0
  Ends s (done a s') = R s s'
  Ends s (undefined s') = Unit
  Ends s (stuck s') = R s s'

  abbrev pub Keeps : {A : Type 0} → M A → Type 0
  Keeps f = (s : Server) → Ends s (f s)

  module _ (order : IsOrder R) where
    pub pure-Keeps : {A : Type 0} (a : A) → Keeps (pure a)
    pure-Keeps a s = order.same s

    pub undefined-Keeps : (A : Type 0) → Keeps {A = A} undefined
    undefined-Keeps A s = tt

    pub and_then-Ends :
        {A B : Type 0} (s : Server) (o : Outcome A) (k : A → M B)
        → Ends s o
        → ((a : A) → Keeps (k a))
        → Ends s (and_then o k)
    and_then-Ends {B = B} s (done a s') k before next = onwards (k a s') (next a s')
      where
        onwards : (o : Outcome B) → Ends s' o → Ends s o
        onwards (done b s2) after = order.chain before after
        onwards (undefined s2) after = tt
        onwards (stuck s2) after = order.chain before after
    and_then-Ends s (undefined s') k before next = tt
    and_then-Ends s (stuck s') k before next = before

    pub bind-Keeps :
        {A B : Type 0} (f : M A) (k : A → M B) → Keeps f → ((a : A) → Keeps (k a)) → Keeps (f >>= k)
    bind-Keeps f k kept next s = and_then-Ends s (f s) k (kept s) next

    pub if-Keeps :
        {A : Type 0} (b : Bool) (f g : M A) → Keeps f → Keeps g → Keeps (if b then f else g)
    if-Keeps true f g kept_f kept_g = kept_f
    if-Keeps false f g kept_f kept_g = kept_g
