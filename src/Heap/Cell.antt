-- ===== src/Heap/Cell.antt =====
-- What the commands do at an address that holds an element.
use cmdb.Base.{◌≡◌, ◌≢◌, false, Option, none, some, arith, ◌==◌}
use cmdb.Heap.{Ptr, null, Elem, elem, Heap, write, ok, load, set_prev, set_next, free}

-- `p` holds the element with these three fields.
pub record Cell (h : Ptr → Option Elem) (p q n d : Ptr) : Type 0 where
  pub ne_null : p ≢ null
  pub holds : h p ≡ some (elem q n d)

module _ (h : Heap) {p q n d : Ptr} (c : Cell h.cell p q n d) where
  not_null : (p == null) ≡ false
  not_null = ground (arith, c.ne_null)

  pub load-ok : load p h ≡ ok (elem q n d) h
  unfolding load
  load-ok = rw (not_null, c.holds)

  pub set_next-ok :
      (v : Ptr) → set_next p v h ≡ ok tt (record h { cell = write h.cell p (some (elem q v d)) })
  unfolding set_next
  set_next-ok v = rw load-ok

  pub set_prev-ok :
      (v : Ptr) → set_prev p v h ≡ ok tt (record h { cell = write h.cell p (some (elem v n d)) })
  unfolding set_prev
  set_prev-ok v = rw load-ok

  pub free-ok : free p h ≡ ok tt (record h { cell = write h.cell p none })
  unfolding free
  free-ok = rw load-ok

pub Cell-write_self :
    (h : Ptr → Option Elem) (p q n d : Ptr)
    → p ≢ null
    → Cell (write h p (some (elem q n d))) p q n d
unfolding write
Cell-write_self h p q n d ne = ground arith

pub Cell-write_ne :
    {h : Ptr → Option Elem} {p q n d : Ptr} (a : Ptr) (c : Option Elem)
    → Cell h p q n d
    → p ≢ a
    → Cell (write h a c) p q n d
unfolding write
Cell-write_ne a c e ne = ground (arith, e.ne_null)
