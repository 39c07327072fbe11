-- ===== src/PathWalk/Paths.antt =====
-- src/filesystem/VFSNode.cc: what it means that a path leads to a place, without a loop or fuel.
use lbw.Prelude.{ℕ, ◌≡◌, ◌≢◌, Bool, true, false, not, ◌&&◌, List, [], ◌∷◌, ◌==◌}
use lbw.Prelude.Results.{ok}
use lbw.Prelude.Text.{Bytes, codes, is_absolute, slash}
use lbw.Nodes.{FileType, directory, link}
use lbw.PathWalk.{Tree, Place, Followed}
use lbw.PathWalk.Elements.{elements}

module _ (t : Tree) where
  open t use {Node, root, get_file_type, read_link, traverse}

  -- `Resolves l n es p`: from n the elements es lead to p, where l says whether a link at the end is
  -- followed. Empty elements are passed over, and every element but the last is a directory.
  -- `Follows l b n e f`: the links from n and e on lead to f, where b says whether e is the last.
  -- `Target n target p`: the target of a link in n leads to p.
  mutual
    pub data Resolves : Bool → Node → List Bytes → Place t → Type 0 where
      here : {l : Bool} {n : Node} → Resolves l n ([] ∷ []) (record { node = n; leaf = [] })
      skip :
          {l : Bool} {n : Node} {e : Bytes} {es : List Bytes} {p : Place t}
          → Resolves l n (e ∷ es) p
          → Resolves l n ([] ∷ e ∷ es) p
      last :
          {l : Bool} {n : Node} {c : ℕ} {cs : Bytes} {f : Followed t}
          → Follows l true n (c ∷ cs) f
          → Resolves l n ((c ∷ cs) ∷ []) (record { node = f.node; leaf = f.element })
      enters :
          {l : Bool} {n m : Node} {c : ℕ} {cs e : Bytes} {es : List Bytes} {f : Followed t}
          {p : Place t}
          → Follows l false n (c ∷ cs) f
          → f.type ≡ directory
          → traverse f.node f.element ≡ ok m
          → Resolves l m (e ∷ es) p
          → Resolves l n ((c ∷ cs) ∷ e ∷ es) p

    pub data Follows : Bool → Bool → Node → Bytes → Followed t → Type 0 where
      plain :
          {l b : Bool} {n : Node} {e : Bytes} {k : FileType}
          → get_file_type n e ≡ ok k
          → k ≢ link
          → Follows l b n e (record { node = n; element = e; type = k })
      kept :
          {l b : Bool} {n : Node} {e : Bytes}
          → get_file_type n e ≡ ok link
          → (not l && b) ≡ true
          → Follows l b n e (record { node = n; element = e; type = link })
      through :
          {l b : Bool} {n : Node} {e target : Bytes} {p : Place t} {f : Followed t}
          → get_file_type n e ≡ ok link
          → (not l && b) ≡ false
          → read_link n e ≡ ok target
          → Target n target p
          → Follows l b p.node p.leaf f
          → Follows l b n e f

    pub data Target : Node → Bytes → Place t → Type 0 where
      to_root :
          {n : Node} {c : ℕ}
          → (c == slash) ≡ true
          → Target n (c ∷ []) (record { node = root; leaf = codes "." })
      absolute :
          {n : Node} {c d : ℕ} {cs : Bytes} {p : Place t}
          → (c == slash) ≡ true
          → Resolves true root (elements (d ∷ cs)) p
          → Target n (c ∷ d ∷ cs) p
      relative :
          {n : Node} {target : Bytes} {p : Place t}
          → is_absolute target ≡ false
          → Resolves true n (elements target) p
          → Target n target p
