-- ===== src/ProductViews.antt =====
-- The views of products: the URLs of the pictures in `ProductSerializer` and
-- `ProductImageSerializer` of orders/backend/serializers.py, and the create, edit, deletion and
-- `my_products` of `ProductViewSet` in orders/backend/views.py.
pub mod Rights
use python_diplom.Base.{
  ℕ, String, Bool, true, false, not, ◌||◌, Option, none, some, List, [], ◌∷◌, keep, any, find, map,
  ◌==◌, or_default, is_some, if◌then◌else◌,
}
use python_diplom.Base.Int.{ℤ}
use python_diplom.Exn.{Result, ok, err, integrity_error, protected_error}
use python_diplom.Table.{insert, update, delete, get}
use python_diplom.Models.{
  Db, User, Product, ProductImage, ProductAttribute, FileField, is_supplier, supplier_profile,
  product_model, image_model, value_model, supplier_model,
}
use python_diplom.Action.{Action, Response}
use python_diplom.Characteristics.{is_value_of, value_row}
use python_diplom.Uploads.{Storage, product_queryset, get_product}
use python_diplom.Products.{NewProduct, ProductPatch, create, update_product, delete_product}

-- The supplier of a product belongs to the user, `supplier__user`.
abbrev pub is_users : User → Db → Product → Bool
is_users user db p = elim (get p.supplier db.suppliers) [
  | none ↦ false
  | some s ↦ s.user == user.id
]

module _ ⦃st : Storage⦄ where
  -- `build_absolute_uri(file.url)`
  abbrev pub image_url : FileField → Option String
  image_url none = none
  image_url (some file) = some (st.url file)

  -- `get_thumbnail_url` and its like: the smaller picture, or the picture itself
  abbrev pub url_or : FileField → FileField → Option String
  url_or none image = image_url image
  url_or (some file) image = some (st.url file)

  -- `ProductImageSerializer`
  pub record ImageView : Type 0 where
    pub id : ℕ
    pub sort_order : ℕ
    pub image_url : Option String
    pub thumbnail_url : Option String
    pub small_url : Option String
    pub medium_url : Option String

  -- The fields of `ProductSerializer` that are not columns; `product` stands for these.
  pub record ProductView : Type 0 where
    pub product : Product
    pub attributes : List ProductAttribute
    pub image_url : Option String
    pub thumbnail_url : Option String
    pub small_url : Option String
    pub medium_url : Option String
    pub large_url : Option String
    pub additional_images : List ImageView

  unfoldable pub image_view : ProductImage → ImageView
  image_view i = record {
    id = i.id;
    sort_order = i.sort_order;
    image_url = image_url i.image;
    thumbnail_url = url_or i.image_thumbnail i.image;
    small_url = url_or i.image_small i.image;
    medium_url = url_or i.image_medium i.image;
  }

  -- `ProductSerializer(product).data`
  unfoldable pub product_view : Db → Product → ProductView
  product_view db p = record {
    product = p;
    attributes = keep (λ v. v.product == p.id) db.product_attributes.rows;
    image_url = image_url p.image;
    thumbnail_url = url_or p.image_thumbnail p.image;
    small_url = url_or p.image_small p.image;
    medium_url = url_or p.image_medium p.image;
    large_url = url_or p.image_large p.image;
    additional_images = map image_view (keep (λ i. i.product == p.id) db.images.rows);
  }

  pub data Reply : Type 0 where
    one : ProductView → Reply
    many : List ProductView → Reply
    no_content : Reply
    error : String → Reply

  abbrev pub reply : ℕ → Reply → Result (Response Reply)
  reply status body = ok (record { status = status; body = body })

  abbrev pub shown : ℕ → Result Product × Db → Result (Response Reply) × Db
  shown status (ok p, db) = (reply status (one (product_view db p)), db)
  shown status (err e, db) = (err e, db)

  -- `POST` on the list of products, for any caller who is logged in
  unfoldable pub post_product : User → NewProduct → Action (Response Reply)
  post_product caller d db = shown 201 (create d db)

  -- `PUT` and `PATCH` on a product
  unfoldable pub patch_product : User → ℕ → ProductPatch → Action (Response Reply)
  patch_product caller pk d db = elim (get_product caller pk db) [
    | err e ↦ (err e, db)
    | ok p ↦ shown 200 (update_product p d db)
  ]

  abbrev pub removed : Result (Unit {0}) × Db → Result (Response Reply) × Db
  removed (ok x, db) = (reply 204 no_content, db)
  removed (err e, db) = (err e, db)

  -- `DELETE` on a product
  unfoldable pub destroy : User → ℕ → Action (Response Reply)
  destroy caller pk db = elim (get_product caller pk db) [
    | err e ↦ (err e, db)
    | ok p ↦ removed (delete_product p db)
  ]

  -- `my_products`
  unfoldable pub my_products : User → Action (Response Reply)
  my_products caller db =
      if not (is_supplier caller.user_type)
      then (reply 403 (error "Только для поставщиков"), db)
      else (
        reply 200
            (many (map (product_view db) (keep (is_users caller db) (product_queryset caller db)))),
        db,
      )
