-- ===== src/Malloc/Blocks.antt =====
-- The allocator of malloclab/src/mm.c, statement by statement, without the checks of DEBUG.
use cs_app_labs.Prelude.{
  ◌>>=◌, ℕ, zero, suc, ◌+◌, ◌-◌, ◌*◌, ◌/◌, ◌%◌, ◌^◌, Bool, ◌&&◌, not, Option, none, some, ltb, leb,
  ◌==◌, if◌then◌else◌,
}
use cs_app_labs.Malloc.Words.{
  Heap, null, minus_one, add_size, sub_size, align, to_int, max_size, get, put, pack_hdr, get_size,
  get_alloc, get_prev_alloc, unset_prev_alloc, set_prev_alloc, hdrp, ftrp, next_freep, next_blkp,
  prev_blkp, mem_sbrk,
}

-- `add_to_free_list`.
unfoldable pub link_back : Heap → ℕ → Option Heap
unfolding put
link_back h bp = if h.free_list_head == null then some h else put h h.free_list_head bp

unfoldable pub add_to_free_list : Heap → ℕ → Option Heap
unfolding link_back put
add_to_free_list h bp = do
  h1 ← put h bp null
  h2 ← put h1 (next_freep bp) h1.free_list_head
  h3 ← link_back h2 bp
  some (record h3 { free_list_head = bp })

-- `remove_from_free_list`.
unfoldable pub set_next : Heap → (prev next : ℕ) → Option Heap
unfolding put
set_next h prev next =
    if prev == null then some (record h { free_list_head = next }) else put h (next_freep prev) next

unfoldable pub set_prev : Heap → (next prev : ℕ) → Option Heap
unfolding put
set_prev h next prev = if next == null then some h else put h next prev

unfoldable pub remove_from_free_list : Heap → ℕ → Option Heap
unfolding set_next set_prev get
remove_from_free_list h bp = do
  prev ← get h bp
  next ← get h (next_freep bp)
  h1 ← set_next h prev next
  set_prev h1 next prev

-- The header and the footer of a free block behind an allocated one.
unfoldable pub put_tags : Heap → (bp size : ℕ) → Option Heap
unfolding ftrp put pack_hdr
put_tags h bp size = do
  h1 ← put h (hdrp bp) (pack_hdr size 1 0)
  foot ← ftrp h1 bp
  put h1 foot size

-- The three branches of `coalesce`: the heap and the block.
unfoldable pub merge_next : Heap → (bp size : ℕ) → Option (Heap × ℕ)
unfolding next_blkp remove_from_free_list get_size put_tags
merge_next h bp size = do
  next ← next_blkp h bp
  h1 ← remove_from_free_list h next
  next' ← next_blkp h1 bp
  more ← get_size h1 (hdrp next')
  h2 ← put_tags h1 bp (add_size size more)
  some (h2, bp)

unfoldable pub merge_prev : Heap → (bp size : ℕ) → Option (Heap × ℕ)
unfolding prev_blkp remove_from_free_list get_size ftrp put pack_hdr
merge_prev h bp size = do
  prev ← prev_blkp h bp
  h1 ← remove_from_free_list h prev
  prev' ← prev_blkp h1 bp
  more ← get_size h1 (hdrp prev')
  foot ← ftrp h1 bp
  h2 ← put h1 foot (add_size size more)
  prev'' ← prev_blkp h2 bp
  h3 ← put h2 (hdrp prev'') (pack_hdr (add_size size more) 1 0)
  bp' ← prev_blkp h3 bp
  some (h3, bp')

unfoldable pub merge_both : Heap → (bp size : ℕ) → Option (Heap × ℕ)
unfolding prev_blkp next_blkp remove_from_free_list get_size ftrp put pack_hdr
merge_both h bp size = do
  prev ← prev_blkp h bp
  h1 ← remove_from_free_list h prev
  next ← next_blkp h1 bp
  h2 ← remove_from_free_list h1 next
  prev' ← prev_blkp h2 bp
  before ← get_size h2 (hdrp prev')
  next' ← next_blkp h2 bp
  behind ← get_size h2 (hdrp next')
  h3 ← put h2 (hdrp prev') (pack_hdr (add_size size (add_size before behind)) 1 0)
  next'' ← next_blkp h3 bp
  foot ← ftrp h3 next''
  h4 ← put h3 foot (add_size size (add_size before behind))
  bp' ← prev_blkp h4 bp
  some (h4, bp')

unfoldable pub merge : Heap → (bp size prev_alloc next_alloc : ℕ) → Option (Heap × ℕ)
unfolding merge_next merge_prev merge_both
merge h bp size prev_alloc next_alloc =
    if not (prev_alloc == 0)
    then (if next_alloc == 0 then merge_next h bp size else some (h, bp))
    else (if next_alloc == 0 then merge_both h bp size else merge_prev h bp size)

-- `coalesce`: the heap, and the block that it returns.
unfoldable pub coalesce : Heap → ℕ → Option (Heap × ℕ)
unfolding get_prev_alloc get_alloc next_blkp get_size merge add_to_free_list
coalesce h bp = do
  prev_alloc ← get_prev_alloc h (hdrp bp)
  next ← next_blkp h bp
  next_alloc ← get_alloc h (hdrp next)
  size ← get_size h (hdrp bp)
  (h1, bp') ← merge h bp size prev_alloc next_alloc
  h2 ← add_to_free_list h1 bp'
  some (h2, bp')

-- The branches of `place`.
unfoldable pub split_block : Heap → (bp asize csize : ℕ) → Option Heap
unfolding put pack_hdr remove_from_free_list next_blkp put_tags add_to_free_list
split_block h bp asize csize = do
  h1 ← put h (hdrp bp) (pack_hdr asize 1 1)
  h2 ← remove_from_free_list h1 bp
  rest ← next_blkp h2 bp
  h3 ← put_tags h2 rest (sub_size csize asize)
  add_to_free_list h3 rest

unfoldable pub take_block : Heap → (bp csize : ℕ) → Option Heap
unfolding put pack_hdr remove_from_free_list next_blkp set_prev_alloc
take_block h bp csize = do
  h1 ← put h (hdrp bp) (pack_hdr csize 1 1)
  next ← next_blkp h1 bp
  h2 ← set_prev_alloc h1 (hdrp next)
  remove_from_free_list h2 bp

unfoldable pub place : Heap → (bp asize : ℕ) → Option Heap
unfolding get_size split_block take_block
place h bp asize = do
  csize ← get_size h (hdrp bp)
  if leb (add_size (add_size asize 16) 16) csize
      then split_block h bp asize csize
      else take_block h bp csize

-- `find_fit`, on fuel; `NULL` if no block is large enough.
unfoldable pub find_loop : (fuel : ℕ) → Heap → (bp asize : ℕ) → Option ℕ
unfolding get_size get
find_loop zero h bp asize = none
find_loop (suc fuel) h bp asize =
    if bp == null
    then some null
    else get_size h (hdrp bp) >>= (λ size.
      if leb asize size
      then some bp
      else get h (next_freep bp) >>= (λ next. find_loop fuel h next asize))

unfoldable pub find_fit : Heap → (asize : ℕ) → Option ℕ
unfolding find_loop
find_fit h asize = find_loop (suc ((h.brk - h.start) / 8)) h h.free_list_head asize

-- `extend_heap`.
unfoldable pub extended : Heap → (bp asize : ℕ) → Option (Heap × ℕ)
unfolding get_prev_alloc put pack_hdr ftrp next_blkp coalesce
extended h bp asize = do
  prev_alloc ← get_prev_alloc h (hdrp bp)
  h1 ← put h (hdrp bp) (pack_hdr asize prev_alloc 0)
  foot ← ftrp h1 bp
  h2 ← put h1 foot asize
  end ← next_blkp h2 bp
  h3 ← put h2 (hdrp end) (pack_hdr 0 0 1)
  coalesce h3 bp

unfoldable pub extend_heap : Heap → (size : ℕ) → Option (Heap × ℕ)
unfolding align mem_sbrk extended
extend_heap h size =
    let (bp, grown) = mem_sbrk h (align size) in
    if bp == minus_one then some (h, null) else extended grown bp (align size)

-- `mm_init`; the Boolean is whether it succeeds.
unfoldable pub init_tags : Heap → Option (Heap × Bool)
unfolding put pack_hdr next_blkp
init_tags h = do
  h1 ← put h h.heap_listp (pack_hdr 16 1 1)
  let h2 : Heap = record h1 { heap_listp = h1.heap_listp + 8 }
  next ← next_blkp h2 h2.heap_listp
  h3 ← put h2 (hdrp next) (pack_hdr 0 1 1)
  some (record h3 { free_list_head = null }, Bool.true)

unfoldable pub mm_init : Heap → Option (Heap × Bool)
unfolding mem_sbrk init_tags
mm_init h =
    let (p, grown) = mem_sbrk h 24 in
    let set : Heap = record grown { heap_listp = p } in
    if p == minus_one then some (set, Bool.false) else init_tags set

-- The size of the block that `mm_malloc` and `mm_realloc` look for.
unfoldable pub block_size : ℕ → ℕ
unfolding align
block_size size = max_size (align (add_size size 8)) 32

unfoldable pub init_if_needed : Heap → Option Heap
unfolding mm_init
init_if_needed h = if h.heap_listp == null then mm_init h >>= (λ r. some r.0) else some h

-- `MAX(asize, CHUNKSIZE)` of two values of `int`.
abbrev pub extend_size : ℕ → ℕ
extend_size asize = if leb 4096 asize && ltb asize (2 ^ 63) then asize else 4096

unfoldable pub place_or_null : (asize : ℕ) → Heap × ℕ → Option (Heap × ℕ)
unfolding place
place_or_null asize (h, bp) =
    if bp == null then some (h, null) else place h bp asize >>= (λ placed. some (placed, bp))

unfoldable pub fit_or_extend : Heap → (asize bp : ℕ) → Option (Heap × ℕ)
unfolding extend_heap
fit_or_extend h asize bp = if bp == null then extend_heap h (extend_size asize) else some (h, bp)

-- `mm_malloc`.
unfoldable pub mm_malloc : Heap → (size : ℕ) → Option (Heap × ℕ)
unfolding init_if_needed block_size to_int find_fit fit_or_extend place_or_null
mm_malloc h size =
    let asize = to_int (block_size size) in
    if size == 0
    then some (h, null)
    else init_if_needed h
      >>= (λ h1. find_fit h1 asize >>= (λ bp. fit_or_extend h1 asize bp >>= place_or_null asize))

-- `mm_free` of a block.
unfoldable pub free_block : Heap → (bp : ℕ) → Option Heap
unfolding get_size get_prev_alloc put pack_hdr ftrp next_blkp unset_prev_alloc coalesce
free_block h bp = do
  size ← get_size h (hdrp bp)
  prev_alloc ← get_prev_alloc h (hdrp bp)
  h1 ← put h (hdrp bp) (pack_hdr size prev_alloc 0)
  foot ← ftrp h1 bp
  h2 ← put h1 foot size
  next ← next_blkp h2 bp
  h3 ← unset_prev_alloc h2 (hdrp next)
  (h4, bp') ← coalesce h3 bp
  some h4

unfoldable pub mm_free : Heap → (bp : ℕ) → Option Heap
unfolding free_block
mm_free h bp = if bp == null then some h else free_block h bp

-- `memcpy` of a number of words.
unfoldable pub copy_words : (words : ℕ) → Heap → (to from : ℕ) → Option Heap
unfolding get put
copy_words zero h to from = some h
copy_words (suc words) h to from =
    get h from >>= (λ v. put h to v >>= (λ h1. copy_words words h1 (to + 8) (from + 8)))

-- `mm_realloc` where it moves the block; the size to copy is a multiple of 8.
unfoldable pub move_block : Heap → (bp size csize : ℕ) → Option (Heap × ℕ)
unfolding mm_malloc copy_words mm_free
move_block h bp size csize = mm_malloc h (size * 2 % 2 ^ 64) >>= (λ (r : Heap × ℕ).
    if r.1 == null
    then some (r.0, null)
    else copy_words (sub_size csize 8 / 8) r.0 r.1 bp
      >>= (λ copied. mm_free copied bp >>= (λ freed. some (freed, r.1))))

-- `mm_realloc`.
unfoldable pub resize : Heap → (bp size : ℕ) → Option (Heap × ℕ)
unfolding get_size block_size move_block
resize h bp size =
    get_size h (hdrp bp)
    >>= (λ csize. if ltb csize (block_size size) then move_block h bp size csize else some (h, bp))

unfoldable pub mm_realloc : Heap → (bp size : ℕ) → Option (Heap × ℕ)
unfolding mm_malloc mm_free resize
mm_realloc h bp size =
    if bp == null
    then mm_malloc h size
    else if size == 0
    then mm_free h bp >>= (λ freed. some (freed, null))
    else resize h bp size
