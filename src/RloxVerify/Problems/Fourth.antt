-- ===== src/RloxVerify/Problems/Fourth.antt =====
-- environments/rlox_verify/rlox_verify/__init__.py: rows 31 to 39 of `_FALLBACK_PROBLEMS`.
use mathlib.Core.List.{List, [], ◌∷◌}
use rlox.RloxVerify.Problems.Rows.{Row, row}

abbrev pub fourth_problems : List Row
fourth_problems =
    row
      "Write a Python function `zip_lists(*lists)` that zips multiple lists together, stopping at the shortest. Returns a list of tuples."
      ""
      "assert zip_lists([1, 2, 3], ['a', 'b', 'c']) == [(1, 'a'), (2, 'b'), (3, 'c')]\nassert zip_lists([1, 2], ['a']) == [(1, 'a')]\nassert zip_lists([]) == []\nassert zip_lists([1, 2], [3, 4], [5, 6]) == [(1, 3, 5), (2, 4, 6)]\n"
    ∷ row
        "Write a Python function `fibonacci(n)` that returns the n-th Fibonacci number (0-indexed: fib(0)=0, fib(1)=1, fib(2)=1, ...)."
        ""
        "assert fibonacci(0) == 0\nassert fibonacci(1) == 1\nassert fibonacci(6) == 8\nassert fibonacci(10) == 55\n"
    ∷ row
        "Write a Python function `count_set_bits(n)` that returns the number of 1-bits (set bits) in the binary representation of a non-negative integer n."
        ""
        "assert count_set_bits(0) == 0\nassert count_set_bits(7) == 3\nassert count_set_bits(128) == 1\nassert count_set_bits(255) == 8\n"
    ∷ row
        "Write a Python function `flatten_dict(d, parent_key='', sep='.')` that flattens a nested dict by joining keys with sep. Values that are dicts are recursed into; other values are kept as-is."
        ""
        "assert flatten_dict({'a': {'b': 1, 'c': 2}}) == {'a.b': 1, 'a.c': 2}\nassert flatten_dict({'x': 1}) == {'x': 1}\nassert flatten_dict({'a': {'b': {'c': 3}}}) == {'a.b.c': 3}\nassert flatten_dict({}) == {}\n"
    ∷ row
        "Write a Python function `top_k(nums, k)` that returns the k largest elements from the list in descending order."
        ""
        "assert top_k([3, 1, 4, 1, 5, 9, 2, 6], 3) == [9, 6, 5]\nassert top_k([1, 2, 3], 1) == [3]\nassert top_k([1], 1) == [1]\nassert top_k([5, 4, 3, 2, 1], 5) == [5, 4, 3, 2, 1]\n"
    ∷ row
        "Write a Python function `is_anagram(s, t)` that returns True if string s is an anagram of string t, False otherwise. Comparison is case-sensitive."
        ""
        "assert is_anagram('anagram', 'nagaram') == True\nassert is_anagram('rat', 'car') == False\nassert is_anagram('', '') == True\nassert is_anagram('abc', 'ab') == False\n"
    ∷ row
        "Write a Python function `count_substring(s, sub)` that returns the number of non-overlapping occurrences of sub in s."
        ""
        "assert count_substring('hello world hello', 'hello') == 2\nassert count_substring('aaaa', 'aa') == 2\nassert count_substring('abcde', 'xy') == 0\nassert count_substring('', 'a') == 0\n"
    ∷ row
        "Write a Python function `gcd(a, b)` that returns the greatest common divisor of non-negative integers a and b."
        ""
        "assert gcd(48, 18) == 6\nassert gcd(7, 5) == 1\nassert gcd(0, 5) == 5\nassert gcd(100, 75) == 25\n"
    ∷ row
        "Write a Python function `lcm(a, b)` that returns the least common multiple of positive integers a and b."
        ""
        "assert lcm(4, 6) == 12\nassert lcm(3, 7) == 21\nassert lcm(1, 5) == 5\nassert lcm(12, 18) == 36\n"
    ∷ []
