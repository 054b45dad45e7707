-- ===== src/Pclass/Enum/Transfer.antt =====
-- How an Enum is written to a BitStream and read from it: by its name in a file, else by its value.
use libki.Common.{Bool, if◌then◌else◌}
use libki.Common.Result.{Result, ok, ◌>>=◌, rethrow}
use libki.Interface.{IBitBuffer}
use libki.Stream.{BitStream}
use libki.Pclass.EnumType.{RuntimeError, runtime_error}
use libki.Pclass.Primitive.{string, integer, helper_write_to, helper_read_from}
use libki.Pclass.Enum.{Enum, set_value, set_value_named, element_name}

module _ {S : Type 0} (b : IBitBuffer S) where
  unfoldable pub write_to : Enum → BitStream S → Bool → Result RuntimeError (BitStream S)
  unfolding element_name helper_write_to
  write_to e st is_file =
      if is_file
      then (element_name e >>= λ name.
          rethrow (λ f. runtime_error) (helper_write_to b (string 8) st is_file name))
      else rethrow (λ f. runtime_error) (helper_write_to b (integer 32) st is_file e.m_value)

  unfoldable pub read_from : Enum → BitStream S → Bool → Result RuntimeError (Enum × BitStream S)
  unfolding set_value set_value_named helper_read_from
  read_from e st is_file =
      if is_file
      then (do
        (name, st') ← rethrow (λ f. runtime_error) (helper_read_from b (string 8) st is_file)
        e' ← set_value_named name e
        ok (e', st'))
      else (do
        (value, st') ← rethrow (λ f. runtime_error) (helper_read_from b (integer 32) st is_file)
        e' ← set_value value e
        ok (e', st'))
