-- ===== src/Daedalus/Host.antt =====
-- daedalus/core/core.hpp: the state of Daedalus, and what its code calls of nall and of the system.
use mercurial_magic.Prelude.{
  ℕ, Bool, Option, none, some, List, [], ◌∷◌, ◌++◌, Text, text_eq, ◌&&◌, ◌||◌,
}
use mercurial_magic.Magic.Disk.{Disk, write}

-- A node of a parsed document: its name, its value, and the nodes below it.
mutual
  pub data Node : Type 0 where
    node : (name value : Text) → Nodes → Node

  pub data Nodes : Type 0 where
    end : Nodes
    and : Node → Nodes → Nodes

-- `suffix` is in lower case. `forward` turns backslashes into slashes and takes off the last ones.
-- `text_at` is the text of the node that a name leads to, and `board` is what BML::unserialize finds below `board`. `unzip` is an archive's files in their
-- order, if it is one. `creates` says whether a folder can be created, and `writable` whether a file
-- opens for writing, if its folder is there.
pub record Host : Type 0 where
  pub prefix : Text → Text
  pub path : Text → Text
  pub suffix : Text → Text
  pub forward : Text → Text
  pub hex : ℕ → Text
  pub sha256 : List ℕ → Text
  pub ends_with : Text → Text → Bool
  pub natural : Text → ℕ
  pub text_at : Node → Text → Text
  pub board : Text → Node
  pub unzip : List ℕ → Option (List (Text × List ℕ))
  pub library : Text
  pub directory_exists : Text → Bool
  pub creates : Text → Bool
  pub readable : Text → Bool
  pub files : Text → List Text
  pub match : Text → List Text → List Text
  pub writable : Text → Bool

pub record Daedalus : Type 0 where
  pub error_message : Text
  pub missing_files : List Text
  pub disk : Disk
  pub folders : Text → Bool

unfoldable pub success : Text → Daedalus → Text × Daedalus
success location d = (location, record d { error_message = [] })

unfoldable pub failure : Text → Daedalus → Text × Daedalus
failure message d = ([], record d { error_message = message })

-- `write({folder, name}, bytes)`, whose result the code ignores.
unfoldable pub write_in : Host → (folder name : Text) → List ℕ → Daedalus → Daedalus
write_in host folder name bytes d = record d {
  disk = write (λ path. d.folders folder && host.writable path) d.disk (folder ++ name) bytes;
}

-- `create(folder)`, when it succeeds.
unfoldable pub create : (folder : Text) → Daedalus → Daedalus
create folder d = record d { folders = λ other. text_eq folder other || d.folders other }

-- A file that is empty or not there adds nothing.
unfoldable pub concatenate : Disk → List ℕ → Text → List ℕ
concatenate disk output location = elim (disk location) [
  | none ↦ output
  | some input ↦ output ++ input
]

unfoldable pub concatenate_all : Disk → List ℕ → (location : Text) → List Text → List ℕ
concatenate_all disk output location [] = output
concatenate_all disk output location (file ∷ files) =
    concatenate_all disk (concatenate disk output (location ++ file)) location files
