-- ===== src/Engine/CommandIds.antt =====
-- engine.py: the ids that `_execute` assigns to the commands of a client.
use openrois.Common.{
  ℕ, zero, suc, ◌+◌, ◌≡◌, ◌≢◌, ◌<◌, refl, sym, ap, ◌∙◌, Bool, false, Option, none, some, List, [],
  ◌∷◌, ◌++◌, map, arith, length, length-append, All, Text, codes,
}
use Prim.Native.Nat.add
use mathlib.Core.List.{map-append}
use native.Mathlib.Nat.{zero-add, add-zero}
use openrois.Common.Dict
use openrois.Common.Dict.{Dict}
use openrois.Common.Numerals.{decimal-injective}
use openrois.Common.Texts.{append-injective_left}
use openrois.Profiles.Units.{CommandUnit, Branch, Item, single, concurrent}
use openrois.Profiles.Status.{ReturnCode}
use openrois.Engine.State.{Engine}
use openrois.Engine.Binds.{is_trusted}
use openrois.Engine.Routes.{Entry, components}
use openrois.Engine.Commands.{add_command, prune}
use openrois.Engine.Execute.{
  units_of, branch_units, all_units, command_id_of, assign_units, assign_branches, assign_item,
  assign_items, accept, add_commands, execute, name_commands,
}

pub command_id_of-injective :
    (engine_id : Text) (m n : ℕ) → command_id_of engine_id m ≡ command_id_of engine_id n → m ≡ n
unfolding command_id_of
command_id_of-injective engine_id m n h =
    decimal-injective m n
      (append-injective_left (codes "/cmd-") _ _ (append-injective_left engine_id _ _ h))

-- the ids of the commands from number `n + 1` on, `k` of them
abbrev pub ids_from : Text → ℕ → ℕ → List Text
ids_from engine_id n zero = []
ids_from engine_id n (suc k) = command_id_of engine_id (suc n) ∷ ids_from engine_id (suc n) k

abbrev pub ids_of : List CommandUnit → List Text
ids_of = map (λ u. u.command_id)

ids_from-add :
    (engine_id : Text) (n j k : ℕ)
    → ids_from engine_id n (j + k) ≡ ids_from engine_id n j ++ ids_from engine_id (n + j) k
ids_from-add engine_id n zero k = rw (zero-add, add-zero) refl
ids_from-add engine_id n (suc j) k =
    let e : suc n + j ≡ n + suc j = omega arith in
    rw add.suc (
      ap (λ t. command_id_of engine_id (suc n) ∷ t) (rw (← e) (ids_from-add engine_id (suc n) j k)))

-- the numbering of a list of commands
abbrev Numbers : Text → ℕ → ℕ → List CommandUnit → List CommandUnit → Type 0
Numbers engine_id n n' before after =
    (n' ≡ n + length before) × (ids_of after ≡ ids_from engine_id n (length before))

assign_units-Numbers :
    (engine_id : Text) (n : ℕ) (units : List CommandUnit)
    → Numbers engine_id n
        (assign_units engine_id n units).0
        units
        (assign_units engine_id n units).1
unfolding assign_units
assign_units-Numbers engine_id n [] = (omega arith, refl)
assign_units-Numbers engine_id n (u ∷ units) =
    let (counted, named) = assign_units-Numbers engine_id (suc n) units in
    (omega (arith, counted), ap (λ t. command_id_of engine_id (suc n) ∷ t) named)

Numbers-append :
    (engine_id : Text) (a b c : ℕ) (us vs us' vs' : List CommandUnit)
    → Numbers engine_id a b us us'
    → Numbers engine_id b c vs vs'
    → Numbers engine_id a c (us ++ vs) (us' ++ vs')
Numbers-append engine_id a b c us vs us' vs' (p, q) (r, s) = (
  omega (arith, p, r, length-append us vs),
  rw (map-append, q, s, p, length-append us vs)
      (sym (ids_from-add engine_id a (length us) (length vs))),
)

assign_branches-Numbers :
    (engine_id : Text) (n : ℕ) (branches : List Branch)
    → Numbers engine_id n
        (assign_branches engine_id n branches).0
        (branch_units branches)
        (branch_units (assign_branches engine_id n branches).1)
unfolding assign_branches branch_units
assign_branches-Numbers engine_id n [] = (omega arith, refl)
assign_branches-Numbers engine_id n (b ∷ branches) =
    let here = assign_units engine_id n b.command_list in
    Numbers-append engine_id n here.0 _ b.command_list (branch_units branches) here.1 _
      (assign_units-Numbers engine_id n b.command_list)
      (assign_branches-Numbers engine_id here.0 branches)

assign_item-Numbers :
    (engine_id : Text) (n : ℕ) (item : Item)
    → Numbers engine_id n
        (assign_item engine_id n item).0
        (units_of item)
        (units_of (assign_item engine_id n item).1)
unfolding assign_item units_of
assign_item-Numbers engine_id n (single unit) = (omega arith, refl)
assign_item-Numbers engine_id n (concurrent branches delay) =
    assign_branches-Numbers engine_id n branches

pub assign_items-Numbers :
    (engine_id : Text) (n : ℕ) (items : List Item)
    → Numbers engine_id n
        (assign_items engine_id n items).0
        (all_units items)
        (all_units (assign_items engine_id n items).1)
unfolding assign_items all_units
assign_items-Numbers engine_id n [] = (omega arith, refl)
assign_items-Numbers engine_id n (item ∷ items) =
    let here = assign_item engine_id n item in
    Numbers-append engine_id n here.0 _ (units_of item) (all_units items) (units_of here.1) _
      (assign_item-Numbers engine_id n item) (assign_items-Numbers engine_id here.0 items)

-- An id made after number `n` is none of the `k` ids made from another later start on.
ids_from-fresh :
    (engine_id : Text) (m n k : ℕ)
    → m < suc n
    → All (λ t. command_id_of engine_id m ≢ t) (ids_from engine_id n k)
ids_from-fresh engine_id m n zero h = tt
ids_from-fresh engine_id m n (suc k) h = (
  λ e. omega (arith, command_id_of-injective engine_id m (suc n) e),
  ids_from-fresh engine_id m (suc n) k (omega arith),
)

abbrev pub AllDistinct : List Text → Type 0
AllDistinct [] = Unit {0}
AllDistinct (t ∷ ts) = All (λ u. t ≢ u) ts × AllDistinct ts

pub ids_from-AllDistinct : (engine_id : Text) (n k : ℕ) → AllDistinct (ids_from engine_id n k)
ids_from-AllDistinct engine_id n zero = tt
ids_from-AllDistinct engine_id n (suc k) = (
  ids_from-fresh engine_id (suc n) (suc n) k (omega arith),
  ids_from-AllDistinct engine_id (suc n) k,
)

next_command-add_commands :
    (e : Engine) (s : Text) (known : Dict Entry) (units : List CommandUnit)
    → (add_commands e s known units).next_command ≡ e.next_command
unfolding add_commands add_command
next_command-add_commands e s known [] = refl
next_command-add_commands e s known (unit ∷ units) =
    of_entry (Dict.get unit.component_ref known) (λ e'. next_command-add_commands e' s known units)
  where
    of_entry :
        (found : Option Entry)
        → ((e' : Engine) → (add_commands e' s known units).next_command ≡ e'.next_command)
        → (let e' : Engine = elim found [
          | none ↦ add_commands e s known units
          | some (profile, source) ↦
              add_commands (add_command e s unit.command_id unit.component_ref source) s known units
        ] in
            e').next_command
          ≡ e.next_command
    of_entry none ih = ih e
    of_entry (some (profile, source)) ih =
        ih (add_command e s unit.command_id unit.component_ref source)

next_command-accept :
    (e : Engine) (s : Text) (items : List Item) → (accept e s items).0.next_command ≡ e.next_command
unfolding accept prune
next_command-accept e s items = next_command-add_commands e s (components e) (all_units items)

items-accept : (e : Engine) (s : Text) (items : List Item) → (accept e s items).2 ≡ items
unfolding accept
items-accept e s items = refl

accepts-client :
    (decodes : Text → Text → Bool) (e : Engine) (s : Text) (items : List Item)
    → is_trusted e s ≡ false
    → (execute decodes e s items).1 ≡ ReturnCode.ok
    → execute decodes e s items
      ≡ accept
          (record e { next_command = (assign_items e.engine_id e.next_command items).0 })
          s
          (assign_items e.engine_id e.next_command items).1
unfolding execute name_commands
accepts-client decodes e s items client h = ground arith

-- An execute of a client answered OK returns its commands with ids of this engine that continue the
-- numbering of the commands before: no two of them are equal, whatever ids the client sent, and the
-- next ids begin behind them.
pub execute-ids :
    (decodes : Text → Text → Bool) (e : Engine) (s : Text) (items : List Item)
    → is_trusted e s ≡ false
    → (execute decodes e s items).1 ≡ ReturnCode.ok
    → (ids_of (all_units (execute decodes e s items).2)
        ≡ ids_from e.engine_id e.next_command (length (all_units items)))
      × AllDistinct (ids_of (all_units (execute decodes e s items).2))
      × ((execute decodes e s items).0.next_command ≡ e.next_command + length (all_units items))
execute-ids decodes e s items client h =
    let (counted, named) = assign_items-Numbers e.engine_id e.next_command items in
    let e' : Engine = record e {
      next_command = (assign_items e.engine_id e.next_command items).0;
    } in
    rw (accepts-client decodes e s items client h) (
      rw (items-accept e' s (assign_items e.engine_id e.next_command items).1) (
        named,
        rw named (ids_from-AllDistinct e.engine_id e.next_command _),
        next_command-accept e' s _ ∙ counted,
      ))
