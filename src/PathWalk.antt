-- ===== src/PathWalk.antt =====
-- src/filesystem/VFSNode.cc, VFSNode::Resolve, and src/filesystem/VFS.cc, VFS::Resolve: a path is
-- followed from node to node, through symbolic links, to the node and the name of its last element.
-- The nodes are an interface, the virtual methods that the loop calls.
pub mod Elements
pub mod Paths
pub mod Refinement
pub mod Completeness
pub mod Termination
pub mod Invariants
use lbw.Prelude.{
  ℕ, zero, suc, Bool, true, false, not, ◌&&◌, List, [], ◌∷◌, Option, none, some, ◌==◌,
  if◌then◌else◌,
}
use lbw.Prelude.Results.{enoent, enotdir, Result, ok, throw, fault, and_then, out_of_fuel}
use lbw.Prelude.Text.{Bytes, codes, slash, is_empty, is_absolute}
use mathlib.Core.Option.{get_or}
use lbw.Nodes.{FileType, missing, file, directory, link, block, char, fifo, socket}

pub record Tree : Type 1 where
  pub Node : Type 0
  -- `root` and `::cwd` of src/filesystem/VFS.cc
  pub root : Node
  pub cwd : Node
  pub get_file_type : Node → Bytes → Result FileType
  pub read_link : Node → Bytes → Result Bytes
  pub traverse : Node → Bytes → Result Node

-- What path.find_first_of('/', left) cuts off from path.substr(left): the element, and what stands
-- behind the slash, if there is a slash and something behind it ("Discard any trailing /").
unfoldable pub next_element : Bytes → Bytes × Option Bytes
next_element [] = ([], none)
next_element (c ∷ cs) =
    let (element, after) = next_element cs in
    if c == slash then ([], if is_empty cs then none else some cs) else (c ∷ element, after)

-- `right == string::npos`
abbrev pub is_last : Option Bytes → Bool
is_last none = true
is_last (some r) = false

module _ (t : Tree) where
  open t use {Node, root, cwd, get_file_type, read_link, traverse}

  -- `node` and `leaf`, the results by reference.
  pub record Place : Type 0 where
    pub node : Node
    pub leaf : Bytes

  -- The variables of the loop over links when it ends.
  pub record Followed : Type 0 where
    pub node : Node
    pub element : Bytes
    pub type : FileType

  -- The test that ends the loop over links.
  abbrev pub stays : FileType → Bool → Bool → Bool
  stays link followlink last = not followlink && last
  stays _ followlink last = true

  -- The switch, on an element that is not the last. No link is left here; the switch has no case
  -- for one, and the loop would go round for ever.
  abbrev pub enter : FileType → Result Node → Result Node
  enter missing down = throw enoent
  enter directory down = down
  enter link down = fault out_of_fuel
  enter _ down = throw enotdir

  -- One round of the loop, up to the loop over links; `next` goes on behind an empty element.
  abbrev pub round :
      Node
      → Bytes × Option Bytes
      → (Bytes → Result Place)
      → (Bytes → Option Bytes → Result Place)
      → Result Place
  round node ([], none) next go = ok (record { node = node; leaf = [] })
  round node ([], some r) next go = next r
  round node (c ∷ cs, after) next go = go (c ∷ cs) after

  -- The rest of the round: the last element is the result, any other is entered.
  abbrev pub finish_round : Followed → Option Bytes → (Node → Bytes → Result Place) → Result Place
  finish_round f none next = ok (record { node = f.node; leaf = f.element })
  finish_round f (some r) next = and_then (enter f.type (traverse f.node f.element)) λ n. next n r

  -- The two calls of Resolve for a link's target; an absolute one goes through VFS::Resolve(NULL, ...).
  abbrev pub target_of : Node → Bytes → (Node → Bytes → Result Place) → Result Place
  target_of node [] next = next node []
  target_of node (c ∷ cs) next = elim (c == slash) [
    | true ↦ elim (is_empty cs) [
      | true ↦ ok (record { node = root; leaf = codes "." })
      | false ↦ next root cs
    ]
    | false ↦ next node (c ∷ cs)
  ]

  -- VFSNode::Resolve from `left` on, where `rest` is path.substr(left), and its loop over links.
  unfoldable mutual
    pub walk : ℕ → Node → Bytes → Bool → Result Place
    walk zero node rest followlink = fault out_of_fuel
    walk (suc fuel) node rest followlink =
        round node (next_element rest) (λ r. walk fuel node r followlink)
          λ element after.
            and_then (follow fuel node element (is_last after) followlink)
              λ f. finish_round f after (λ n r. walk fuel n r followlink)

    pub follow : ℕ → Node → Bytes → Bool → Bool → Result Followed
    follow zero node element last followlink = fault out_of_fuel
    follow (suc fuel) node element last followlink = and_then (get_file_type node element) λ type.
        elim (stays type followlink last) [
          | true ↦ ok (record { node = node; element = element; type = type })
          | false ↦ and_then (read_link node element) λ target.
              and_then (target_of node target (λ n p. walk fuel n p true))
                λ p. follow fuel p.node p.leaf last followlink
        ]

  -- VFS::Resolve; `dir` is none for NULL.
  unfoldable pub resolve : ℕ → Option Node → Bytes → Bool → Result Place
  unfolding walk
  resolve fuel none [] followlink = walk fuel cwd [] followlink
  resolve fuel (some d) [] followlink = walk fuel d [] followlink
  resolve fuel dir (c ∷ cs) followlink =
      let from_root = walk fuel root cs followlink in
      let from_dir = walk fuel (get_or dir cwd) (c ∷ cs) followlink in
      if c == slash
      then (if is_empty cs
          then ok (record { node = get_or dir root; leaf = codes "." })
          else from_root)
      else from_dir
