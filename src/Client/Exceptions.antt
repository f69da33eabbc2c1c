-- ===== src/Client/Exceptions.antt =====
-- error.go: java exceptions as the errors of package os.
use hdfs.Prelude.{Bool, true, false, String, if◌then◌else◌}
use hdfs.Prelude.Errors.{Error}
use text.Mathlib.Text.{◌==◌ as str_eq}

abbrev pub file_not_found_exception : String
file_not_found_exception = "java.io.FileNotFoundException"

abbrev pub permission_denied_exception : String
permission_denied_exception = "org.apache.hadoop.security.AccessControlException"

abbrev pub path_is_not_empty_dir_exception : String
path_is_not_empty_dir_exception = "org.apache.hadoop.fs.PathIsNotEmptyDirectoryException"

-- `exception` when the error is not a remote one is empty, and matches no case.
unfoldable pub interpret_exception : Error → Error
interpret_exception (Error.remote exception) =
    if str_eq exception file_not_found_exception
    then Error.not_exist
    else if str_eq exception permission_denied_exception
    then Error.permission
    else if str_eq exception path_is_not_empty_dir_exception
    then Error.not_empty
    else Error.remote exception
interpret_exception e = e

-- `os.IsNotExist`, which looks into one `PathError`.
is_not_exist_value : Error → Bool
is_not_exist_value Error.not_exist = true
is_not_exist_value e = false

unfoldable pub is_not_exist : Error → Bool
unfolding is_not_exist_value
is_not_exist (Error.path_error op path e) = is_not_exist_value e
is_not_exist e = is_not_exist_value e
