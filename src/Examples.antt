-- ===== src/Examples.antt =====
-- Concrete parameters and data for the examples of the other modules.
pub mod TaxNumbers
pub mod Accounts
pub mod Orders
pub mod Pictures
pub mod OneEntry
pub mod Services
pub mod Values
pub mod PriceLists
pub mod Products
pub mod Users
pub mod Catalogue
pub mod Categories
pub mod Deletions
pub mod Templates
pub mod Throttles
pub mod Badges
use Prim.Native.String.{[], ◌∷◌}
use Prim.Native.String
use python_diplom.Base.{
  ℕ, ◌-◌, ◌<◌, Char, code, String, ◌≡◌, refl, Bool, true, false, ◌||◌, ◌&&◌, Option, none, some,
  List, arith, leb, ltb, ◌==◌, if◌then◌else◌,
}
use python_diplom.Base.Int.{pos}
use python_diplom.Exn.{Result, ok, err, other_error}
use python_diplom.Text.{Unicode, len}
use python_diplom.Accounts.{Django}
use python_diplom.Thumbnails.{Pillow}
use python_diplom.Orders.{Columns}
use python_diplom.Models.{Db, User, UserType, Supplier, Category, Product, Order, OrderItem, Status}

abbrev is_ascii_digit : ℕ → Bool
is_ascii_digit n = leb 48 n && leb n 57

abbrev ascii_value : ℕ → Option ℕ
ascii_value n = if is_ascii_digit n then some (n - 48) else none

pub ascii_digit-not_space :
    (c : Char) → (is_ascii_digit (code c) || (code c == 178)) ≡ true → (code c == 32) ≡ false
ascii_digit-not_space c h = ground arith

pub ascii_digit-not_hyphen :
    (c : Char) → (is_ascii_digit (code c) || (code c == 178)) ≡ true → (code c == b'-') ≡ false
ascii_digit-not_hyphen c h = ground arith

pub ascii_value_lt : (c : Char) (d : ℕ) → ascii_value (code c) ≡ some d → d < 10
ascii_value_lt c d h = ground arith

-- ASCII, and the superscript two: a digit that `int` does not read.
instance abbrev pub ascii : Unicode
ascii = record {
  is_space = λ c. code c == 32;
  is_digit = λ c. is_ascii_digit (code c) || (code c == 178);
  digit_value = λ c. ascii_value (code c);
  lower = λ s. s;
  upper = λ s. s;
  digit-not_space = ascii_digit-not_space;
  digit-not_hyphen = ascii_digit-not_hyphen;
  lower_empty = refl;
  lower_dot = λ c s h. refl;
  digit_value_lt = ascii_value_lt;
}

instance abbrev pub plain_django : Django
plain_django = record {
  normalize_username = λ s. s;
  normalize_email = λ s. s;
  error_text = λ s. s;
  file_url = λ s. String.◌++◌ "/media/" s;
}

instance abbrev pub wide : Columns
wide = record { fits = λ digits amount. true }

-- A picture library that opens no file.
instance abbrev pub broken : Pillow
broken = record {
  Image = String;
  Bytes = String;
  open_image = λ name. err (other_error "cannot identify image file");
  mode = λ i. "RGB";
  to_rgba = λ i. i;
  paste_on_white = λ masked i. i;
  shrink = λ size i. i;
  encode = λ format i. ok i;
  stored_name = λ name bytes. ok name;
}

abbrev pub account : ℕ → String → UserType → Option String → User
account id name user_type avatar = record {
  id = id;
  username = name;
  email = String.◌++◌ name "@example.com";
  first_name = "";
  last_name = "";
  user_type = user_type;
  phone = "";
  company_name = "";
  address = "";
  is_active = true;
  is_staff = false;
  supplier_code = none;
  accepts_orders = true;
  avatar = avatar;
  avatar_small = none;
  avatar_medium = none;
  avatar_large = none;
}

abbrev pub anna : User
anna = account 1 "anna" UserType.client (some "anna.png")

abbrev pub boris : User
boris = account 2 "boris" UserType.supplier none

abbrev pub boris_profile : Supplier
boris_profile = record {
  id = 5;
  user = 2;
  company_name = "Boris and sons";
  contact_person = "Boris";
  phone = "";
  email = "";
  address = "";
  tax_number = "7707083893";
  is_active = true;
}

abbrev pub drinks : Category
drinks = record { id = 1; name = "drinks"; parent = none }

abbrev pub tea : Product
tea = record {
  id = 7;
  supplier = 5;
  category = 1;
  name = "tea";
  sku = "T-1";
  description = "";
  price = pos 250;
  cost_price = none;
  stock_quantity = 40;
  min_order_quantity = 1;
  unit = "pcs";
  is_active = true;
  image = some "tea.png";
  image_thumbnail = none;
  image_small = none;
  image_medium = none;
  image_large = none;
}

-- Anna's order of three packets of tea, which has been delivered.
abbrev pub delivered_order : Order
delivered_order = record {
  id = 11;
  client = 1;
  order_number = "ORDAAAAAAAAAA";
  status = Status.delivered;
  total_amount = pos 750;
  delivery_address = "";
  contact_phone = "";
  notes = "";
  created_at = 100;
  confirmed_at = some 110;
}

abbrev pub tea_line : OrderItem
tea_line = record {
  id = 21;
  order = 11;
  product = 7;
  supplier = 5;
  quantity = 3;
  price = pos 250;
  subtotal = pos 750;
}

abbrev pub shop : Db
shop = record {
  users = record { rows = List.◌∷◌ anna (List.◌∷◌ boris List.[]); next_id = 3 };
  suppliers = record { rows = List.◌∷◌ boris_profile List.[]; next_id = 6 };
  products = record { rows = List.◌∷◌ tea List.[]; next_id = 8 };
  images = record { rows = List.[]; next_id = 1 };
  categories = record { rows = List.◌∷◌ drinks List.[]; next_id = 2 };
  attributes = record { rows = List.[]; next_id = 1 };
  product_attributes = record { rows = List.[]; next_id = 1 };
  orders = record { rows = List.◌∷◌ delivered_order List.[]; next_id = 12 };
  items = record { rows = List.◌∷◌ tea_line List.[]; next_id = 22 };
  logs = record { rows = List.[]; next_id = 1 };
  queue = List.[];
}
