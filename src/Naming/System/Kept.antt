-- ===== src/Naming/System/Kept.antt =====
-- The steps that the rounds are made of keep the trie valid.
use network_file_system_in_c.Base.{
  >>=-eq-some, Bool, Bool-cases, List, Option, Str, [], eq_int, eq_of_some, false, if◌then◌else◌,
  inl, inr, is_neg, leb, ltb, none, not, pos, pos_part, refl, some, subst, tokens, true, ℕ, ℤ, ◌-◌,
  ◌==◌, ◌||◌, ◌∷◌, ◌≡◌,
}
use network_file_system_in_c.Naming.Dispatch.{
  client_gone, client_round, command_processor, command_size, handle, post_client, post_red,
  request_of, try_red, wait_client,
}
use network_file_system_in_c.Naming.Kept.{Ends, IsOrder, Keeps, bind-Keeps, if-Keeps, pure-Keeps}
use network_file_system_in_c.Naming.Kept.Primitives.{Handled, KeepsAll}
use network_file_system_in_c.Naming.Kept.Rounds.{handle-Keeps}
use network_file_system_in_c.Naming.State.{
  Command, M, Network, Outcome, Server, and_then, done, lift_option, pure, stuck, undefined, ◌>>=◌,
}
use network_file_system_in_c.Naming.Threads.{
  post_client_lock, post_master_client, post_master_server, register_paths, wait_client_lock,
  wait_master_client, wait_master_server,
}
use network_file_system_in_c.Tries.Insert.{insert_tries3}
use network_file_system_in_c.Tries.Node.{TriesHead}
use network_file_system_in_c.Tries.Register.{insert_tokens, tokenize_and_print}
use network_file_system_in_c.Tries.Valid.{IsValid, insert_tries3-IsValid}

-- A valid trie stays valid.
pub record KeepsTrie (s s' : Server) : Type 0 where
  pub kept : IsValid s.thp → IsValid s'.thp

pub KeepsTrie-IsOrder : IsOrder KeepsTrie
KeepsTrie-IsOrder = record {
  same = λ s. record { kept = λ h. h };
  chain = λ {s} {t} {u} a b. record { kept = λ h. b.kept (a.kept h) };
}

abbrev pub Valid : {A : Type 0} → M A → Type 0
Valid f = Keeps KeepsTrie f

pub from_handled : {A : Type 0} (f : M A) → KeepsAll f → Valid f
from_handled {A = A} f all s = go (f s) (all s)
  where
    go : (o : Outcome A) → Ends Handled s o → Ends KeepsTrie s o
    go (done a s') h = record { kept = h.valid }
    go (undefined s') h = tt
    go (stuck s') h = record { kept = h.valid }

pub and_so :
    {A B : Type 0} (f : M A) (k : A → M B) → Valid f → ((a : A) → Valid (k a)) → Valid (f >>= k)
and_so = bind-Keeps KeepsTrie KeepsTrie-IsOrder

pub one_of : {A : Type 0} (b : Bool) (f g : M A) → Valid f → Valid g → Valid (if b then f else g)
one_of = if-Keeps KeepsTrie KeepsTrie-IsOrder

pub rest : {A : Type 0} (a : A) → Valid (pure a)
rest = pure-Keeps KeepsTrie KeepsTrie-IsOrder

-- A wait that may find its semaphore at 0, or out of range.
pub waits :
    (b : Bool) (s s' : Server)
    → (IsValid s.thp → IsValid s'.thp)
    → Ends KeepsTrie {A = Unit {0}} s (if b then stuck s else done tt s')
waits true s s' h = record { kept = λ v. v }
waits false s s' h = record { kept = h }

pub posts :
    (b : Bool) (s s' : Server)
    → (IsValid s.thp → IsValid s'.thp)
    → Ends KeepsTrie {A = Unit {0}} s (if b then done tt s' else undefined s)
posts true s s' h = record { kept = h }
posts false s s' h = tt

wait_client-Valid : (i : ℕ) → Valid (wait_client i)
unfolding wait_client
wait_client-Valid i s = elim (Bool-cases (not (ltb i 6))) [
  | inl out ↦ rw out tt
  | inr within ↦ rw within (waits (s.block_client i == 0) s _ (λ h. h))
]

post_client-Valid : (i : ℕ) → Valid (post_client i)
unfolding post_client
post_client-Valid i s = posts (ltb i 6) s _ (λ h. h)

try_red-Valid : Valid try_red
unfolding try_red
try_red-Valid s = record { kept = λ h. h }

pub post_red-Valid : Valid post_red
unfolding post_red
post_red-Valid s = record { kept = λ h. h }

insert_tokens-IsValid :
    (thp : TriesHead) (tokens : List Str) (i : ℤ) {thp' : TriesHead}
    → IsValid thp
    → insert_tokens thp tokens i ≡ some thp'
    → IsValid thp'
unfolding insert_tokens
insert_tokens-IsValid thp [] i h e = subst IsValid (eq_of_some e) h
insert_tokens-IsValid thp (token ∷ tokens) i h e =
    let (t, e1, e2) = >>=-eq-some (insert_tries3 thp token i i i) _ e in
    insert_tokens-IsValid t tokens i ((insert_tries3-IsValid thp token i i i h e1).0) e2

pub register_paths-Valid : (result : Str) (i : ℕ) → Valid (register_paths result i)
unfolding register_paths tokenize_and_print
register_paths-Valid result i s =
    go (insert_tokens s.thp (tokens 10 result) (pos i))
      (λ t e h. insert_tokens-IsValid s.thp (tokens 10 result) (pos i) h e)
  where
    go :
        (o : Option TriesHead)
        → ((t : TriesHead) → o ≡ some t → IsValid s.thp → IsValid t)
        → Ends KeepsTrie s (and_then (lift_option o s) (λ t s'. done tt (record s' { thp = t })))
    go none keeps = tt
    go (some t) keeps = record { kept = keeps t refl }

module _ (net : Network) where
  command_processor-Valid : (c : Command) (i : ℕ) → Valid (command_processor net c i)
  unfolding command_processor
  command_processor-Valid c i = and_so (wait_client i) _ (wait_client-Valid i) (λ u.
      and_so try_red _ try_red-Valid (λ u.
        and_so (handle net (request_of c.operation) c) _
          (from_handled (handle net (request_of c.operation) c)
            (handle-Keeps net (request_of c.operation) c))
          (λ u. and_so post_red _ post_red-Valid (λ u. post_client-Valid i))))

  pub client_round-Valid : (index : ℕ) (r : ℤ) (c : Command) → Valid (client_round net index r c)
  unfolding client_round client_gone
  client_round-Valid index r c =
      one_of (is_neg r || eq_int r (pos 0) || ltb (pos_part r) command_size) _ _
        (and_so (client_gone net index) _ (λ s. waits (s.client_lock == 0) s _ (λ h. h))
          (λ u. rest false))
        (one_of (leb 5100 c.port) _ _
          (and_so (command_processor net c (c.port - 5100)) _ (command_processor-Valid c _)
            (λ u. rest true))
          (λ s. tt))

pub client_lock-Valid : Valid wait_client_lock × Valid post_client_lock
unfolding wait_client_lock post_client_lock
client_lock-Valid = (λ s. waits (s.client_lock == 0) s _ (λ h. h), λ s. record { kept = λ h. h })

pub client_master-Valid : Valid wait_master_client × Valid post_master_client
unfolding wait_master_client post_master_client
client_master-Valid =
    (λ s. waits (s.master_client_lock == 0) s _ (λ h. h), λ s. record { kept = λ h. h })

pub server_master-Valid : Valid wait_master_server × Valid post_master_server
unfolding wait_master_server post_master_server
server_master-Valid =
    (λ s. waits (s.master_server_lock == 0) s _ (λ h. h), λ s. record { kept = λ h. h })
