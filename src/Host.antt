-- ===== src/Host.antt =====
-- What the program uses of the machine it runs on: programs on the path, and files.
pub mod Temps
pub mod Shelf
use backwyn.Prelude.{Option, List, Result}
use backwyn.Prelude.Text.{Text}
use backwyn.Storage.{Reader}
use backwyn.Crypto.Stream.{Sink}

-- How a program ended: its error, if any, and its output.
pub record Ran : Type 0 where
  pub stdout : Text
  pub stderr : Text
  pub failure : Option Text

-- `os/exec` and the temporary files of `os`, over a state `H`. A file that was created is written
-- through the `Sink` that `writer` gives; `filled` is the file once that has taken what it has.
pub record Host (H : Type 0) : Type 0 where
  pub look_path : Text → H → Option Text
  pub exec : Text → List Text → H → Ran × H
  pub create_temp : Text → H → Result Text Text × H
  pub writer : Text → H → Sink
  pub filled : Text → Sink → H → H
  pub close : Text → H → Result Text (Unit {0}) × H
  pub open_file : Text → H → Result Text Reader × H
  pub remove : Text → H → H
