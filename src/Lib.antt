-- ===== src/Lib.antt =====
-- A model of the purchasing service in orders/: a Django application with a REST interface through
-- which clients order the products of suppliers. The modules follow the program's parts:
--
-- - Base, with its children, holds the shared names, Boolean tests, lists and integers. Exn has
--   Python's exceptions as values, Action has views that read and change the database, and may
--   raise; what was written before an exception stays written, as in autocommit mode. Text has the
--   operations on `str` and on file names. Table is a database table: rows with keys.
-- - Models: the model classes of orders/backend/models.py as records, the database `Db` with one
--   table for each, and the queue of Celery tasks. Amounts are in hundredths. Titles has their
--   `__str__`.
-- - TaxNumber: `validate_tax_number` of orders/backend/serializers.py and `Supplier.clean`.
-- - Accounts and Registration: `User.save`, the serializers of users, and `register`, `login`,
--   `password_reset` and `me` of orders/backend/views.py.
-- - Media and Uploads: the checks of pictures, and the handlers that take or remove files; these
--   send the tasks of Thumbnails, which models orders/backend/tasks.py.
-- - Orders: `OrderSerializer` with `validate_items` and `create`, `Order.calculate_total`,
--   `OrderItem.save` and `perform_create`. OrderViews: who sees which orders, `confirm`, `cancel`,
--   edits, deletion and the numbers of `statistics`. Its Lifecycle runs sequences of requests.
-- - Python has the values that `json.loads`, `yaml.safe_load` and `csv.DictReader` return. RecordCheck,
--   Characteristics and PriceList are `_validate_product_data` and `_process_product_record` of
--   `ProductViewSet`; FileFormats reads a file, and Import is `import_products`, which runs them over the
--   records in one transaction.
-- - Products: `ProductSerializer.create` and `update`. ProductViews: the views of products and the
--   URLs of their pictures. Catalogue: the cached list of products. Template: `export_template`.
-- - Categories: the tree that `CategorySerializer` shows, and the cached views of `CategoryViewSet`.
-- - UserViews and SupplierViews: the generic views of users and of suppliers. Integrity: the foreign
--   keys between the tables, over the deletions of all viewsets, the creation of orders and imports.
-- - Admin: the columns that orders/backend/admin.py computes.
-- - Throttling: orders/backend/throttling.py with the rates of orders/orders/settings.py.
-- - Mails: the two mail tasks of orders/backend/tasks.py.
-- - Cache: orders/backend/cache_utils.py, orders/backend/signals.py and the cached `statistics`.
-- - Social: orders/backend/ipeline.py and orders/backend/social_views.py.
-- - Examples: concrete parameters and data, to which the theorems are applied.
--
-- Code outside the repository is a parameter: the Unicode tables (`Unicode`), what Django does with
-- names and URLs (`Django`), `authenticate` (`Authentication`), the limits of decimal
-- columns (`Columns`), Pillow (`Pillow`), the media storage (`Storage`), the parsers of files (`Parsers`), `str`,
-- `int` and `Decimal` on values of unknown type (`Python`), the mail server and the templates
-- (`Mailer`), Redis (`Backend`), MD5 and JSON (`Hash`), the order of texts in the database
-- (`ByName`), and the filters, pages, renderers and throttles of the REST framework (`Listing`,
-- `Rendering`, `Framework`). Random codes and times are arguments of the handlers. A request is one
-- step: requests do not interleave.
--
-- Loops are structural recursion. Fuel occurs three times: `show` divides by ten with one round more
-- than the number, which is enough; `runs` counts the runs of a task with retries; and
-- `category_data` goes as deep as the recursion limit of Python allows, of which as many levels as
-- there are categories are enough.
--
-- In the cache time does not pass: entries do not expire. The receivers of orders/backend/signals.py
-- are modelled although orders/backend/apps.py connects none: a theorem on what is cached while rows
-- are saved says that it holds with and without them.
--
-- Not modelled: the views of characteristics, the configuration of the admin pages, what the storage
-- holds, settings, URLs and migrations. Password hashes and tokens are left out of the
-- records. The limits of columns on the length of texts and the size of whole numbers are left out but
-- for the tax number, and the keys of a mapping in a file are texts. The checks that the REST framework
-- makes for a product or a user before the serializer's own code are taken to have passed.
pub mod Admin
pub mod Base
pub mod Exn
pub mod Template
pub mod Text
pub mod TaxNumber
pub mod Python
pub mod RecordCheck
pub mod Categories
pub mod Characteristics
pub mod PriceList
pub mod FileFormats
pub mod Import
pub mod Integrity
pub mod Mails
pub mod Products
pub mod ProductViews
pub mod SupplierViews
pub mod Table
pub mod Titles
pub mod Models
pub mod Action
pub mod Accounts
pub mod Registration
pub mod UserViews
pub mod Media
pub mod Throttling
pub mod Thumbnails
pub mod Orders
pub mod OrderViews
pub mod Cache
pub mod Catalogue
pub mod Uploads
pub mod Social
pub mod Examples
