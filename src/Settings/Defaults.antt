-- ===== src/Settings/Defaults.antt =====
-- libs/settings/src/default-settings.ts: the settings that the owner of the settings creates. Texts are lists of
-- character codes; the numbers and the Booleans of JSON are given by `int` and `boolean`.
use ocean_chat_private.Prelude.{ℕ, List, [], ◌∷◌, Option, some, Bool, true}
use ocean_chat_private.Settings.{Text, SettingValue, text, structured}

-- The types of settings that the defaults have.
pub data SettingType : Type 0 where
  string int boolean : SettingType

-- A setting of the collection. One that was created by an update of its value has no type, no group and no
-- label; a value is null where it is `none`. `public`, which no default sets, is left out.
pub record Setting (J : Type 0) : Type 0 where
  pub id : Text
  pub value : Option (SettingValue J)
  pub type : Option SettingType
  pub group : Option Text
  pub i18n_label : Option Text

-- 'Accounts_Username_MinLength'
abbrev pub accounts_username_min_length : Text
accounts_username_min_length =
    65 ∷ 99 ∷ 99 ∷ 111 ∷ 117 ∷ 110 ∷ 116 ∷ 115 ∷ 95 ∷ 85 ∷ 115 ∷ 101 ∷ 114 ∷ 110 ∷ 97 ∷ 109 ∷ 101
    ∷ 95 ∷ 77 ∷ 105 ∷ 110 ∷ 76 ∷ 101 ∷ 110 ∷ 103 ∷ 116 ∷ 104 ∷ []

-- 'Accounts_Username_MaxLength'
abbrev pub accounts_username_max_length : Text
accounts_username_max_length =
    65 ∷ 99 ∷ 99 ∷ 111 ∷ 117 ∷ 110 ∷ 116 ∷ 115 ∷ 95 ∷ 85 ∷ 115 ∷ 101 ∷ 114 ∷ 110 ∷ 97 ∷ 109 ∷ 101
    ∷ 95 ∷ 77 ∷ 97 ∷ 120 ∷ 76 ∷ 101 ∷ 110 ∷ 103 ∷ 116 ∷ 104 ∷ []

-- 'Accounts_Username_Regex'
abbrev pub accounts_username_regex : Text
accounts_username_regex =
    65 ∷ 99 ∷ 99 ∷ 111 ∷ 117 ∷ 110 ∷ 116 ∷ 115 ∷ 95 ∷ 85 ∷ 115 ∷ 101 ∷ 114 ∷ 110 ∷ 97 ∷ 109 ∷ 101
    ∷ 95 ∷ 82 ∷ 101 ∷ 103 ∷ 101 ∷ 120 ∷ []

-- 'Accounts_Password_MinLength'
abbrev pub accounts_password_min_length : Text
accounts_password_min_length =
    65 ∷ 99 ∷ 99 ∷ 111 ∷ 117 ∷ 110 ∷ 116 ∷ 115 ∷ 95 ∷ 80 ∷ 97 ∷ 115 ∷ 115 ∷ 119 ∷ 111 ∷ 114 ∷ 100
    ∷ 95 ∷ 77 ∷ 105 ∷ 110 ∷ 76 ∷ 101 ∷ 110 ∷ 103 ∷ 116 ∷ 104 ∷ []

-- 'Accounts_Password_RequireDigit'
abbrev pub accounts_password_require_digit : Text
accounts_password_require_digit =
    65 ∷ 99 ∷ 99 ∷ 111 ∷ 117 ∷ 110 ∷ 116 ∷ 115 ∷ 95 ∷ 80 ∷ 97 ∷ 115 ∷ 115 ∷ 119 ∷ 111 ∷ 114 ∷ 100
    ∷ 95 ∷ 82 ∷ 101 ∷ 113 ∷ 117 ∷ 105 ∷ 114 ∷ 101 ∷ 68 ∷ 105 ∷ 103 ∷ 105 ∷ 116 ∷ []

-- 'Accounts_Password_RequireLowercase'
abbrev pub accounts_password_require_lowercase : Text
accounts_password_require_lowercase =
    65 ∷ 99 ∷ 99 ∷ 111 ∷ 117 ∷ 110 ∷ 116 ∷ 115 ∷ 95 ∷ 80 ∷ 97 ∷ 115 ∷ 115 ∷ 119 ∷ 111 ∷ 114 ∷ 100
    ∷ 95 ∷ 82 ∷ 101 ∷ 113 ∷ 117 ∷ 105 ∷ 114 ∷ 101 ∷ 76 ∷ 111 ∷ 119 ∷ 101 ∷ 114 ∷ 99 ∷ 97 ∷ 115 ∷ 101
    ∷ []

-- 'Accounts_Password_RequireUppercase'
abbrev pub accounts_password_require_uppercase : Text
accounts_password_require_uppercase =
    65 ∷ 99 ∷ 99 ∷ 111 ∷ 117 ∷ 110 ∷ 116 ∷ 115 ∷ 95 ∷ 80 ∷ 97 ∷ 115 ∷ 115 ∷ 119 ∷ 111 ∷ 114 ∷ 100
    ∷ 95 ∷ 82 ∷ 101 ∷ 113 ∷ 117 ∷ 105 ∷ 114 ∷ 101 ∷ 85 ∷ 112 ∷ 112 ∷ 101 ∷ 114 ∷ 99 ∷ 97 ∷ 115 ∷ 101
    ∷ []

-- 'Accounts_Password_RequireSpecialChar'
abbrev pub accounts_password_require_special_char : Text
accounts_password_require_special_char =
    65 ∷ 99 ∷ 99 ∷ 111 ∷ 117 ∷ 110 ∷ 116 ∷ 115 ∷ 95 ∷ 80 ∷ 97 ∷ 115 ∷ 115 ∷ 119 ∷ 111 ∷ 114 ∷ 100
    ∷ 95 ∷ 82 ∷ 101 ∷ 113 ∷ 117 ∷ 105 ∷ 114 ∷ 101 ∷ 83 ∷ 112 ∷ 101 ∷ 99 ∷ 105 ∷ 97 ∷ 108 ∷ 67 ∷ 104
    ∷ 97 ∷ 114 ∷ []

-- 'Accounts'
abbrev pub accounts : Text
accounts = 65 ∷ 99 ∷ 99 ∷ 111 ∷ 117 ∷ 110 ∷ 116 ∷ 115 ∷ []

-- '^[a-zA-Z0-9_.-]+$'
abbrev pub username_regex : Text
username_regex =
    94 ∷ 91 ∷ 97 ∷ 45 ∷ 122 ∷ 65 ∷ 45 ∷ 90 ∷ 48 ∷ 45 ∷ 57 ∷ 95 ∷ 46 ∷ 45 ∷ 93 ∷ 43 ∷ 36 ∷ []

module _ {J : Type 0} (int_value : ℕ → J) (boolean_value : Bool → J) where
  abbrev pub default_setting : Text → SettingValue J → SettingType → Setting J
  default_setting id value type = record {
    id = id;
    value = some value;
    type = some type;
    group = some accounts;
    i18n_label = some id;
  }

  unfoldable pub default_settings : List (Setting J)
  default_settings =
      default_setting accounts_username_min_length (structured (int_value 3)) int
      ∷ default_setting accounts_username_max_length (structured (int_value 20)) int
      ∷ default_setting accounts_username_regex (text username_regex) string
      ∷ default_setting accounts_password_min_length (structured (int_value 6)) int
      ∷ default_setting accounts_password_require_digit (structured (boolean_value true)) boolean
      ∷ default_setting accounts_password_require_lowercase (structured (boolean_value true))
          boolean
      ∷ default_setting accounts_password_require_uppercase (structured (boolean_value true))
          boolean
      ∷ default_setting accounts_password_require_special_char (structured (boolean_value true))
          boolean
      ∷ []
